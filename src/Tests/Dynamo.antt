-- ===== src/Tests/Dynamo.antt =====
-- Runs of the DynamoDB repository over the table in memory.
use container_provisioner_k.Base.{
  Option, suc, ◌&&◌, ◌==◌, string_eq, if◌then◌else◌, ℕ, ◌≤◌, ◌<◌, String, none, some, List, [], ◌∷◌,
  All, ◌≡◌, refl, arith, true, false, ◌⊎◌, none-some,
}
use container_provisioner_k.Base.Text.{itoa, format_int}
use container_provisioner_k.Base.Text.Numbers.{parse_digits, parse_int64}
use container_provisioner_k.Dynamo.Client.{QueryInput, QueryOutput}
use container_provisioner_k.Errors.{ok, sentinel, no_available_node_port, transaction_canceled}
use container_provisioner_k.Models.{Status, Stack}
use container_provisioner_k.Dynamo.{create, get, delete, DynamoRepository}
use container_provisioner_k.Dynamo.Items.{Item, no_entry, entry, member_s, find}
use container_provisioner_k.Dynamo.Codec.{
  stack_to_item, stack_from_item, job_to_item, job_from_item,
}
use container_provisioner_k.Dynamo.RoundTrip.{
  IsStorable, IsStorableJob, stack_from_item-stack_to_item, job_from_item-job_to_item,
}
use container_provisioner_k.Dynamo.Failures.{map_dynamo_tx_error, tx_condition_failed_at}
use container_provisioner_k.Dynamo.Refusal.{map_dynamo_tx_error_cases}
use container_provisioner_k.Dynamo.Keys.{port_sk}
use container_provisioner_k.Dynamo.Ports.{reserve_node_port}
use container_provisioner_k.Dynamo.Pages.{list_all, used_node_port_count, all_query, port_query}
use container_provisioner_k.Dynamo.Table.{Rows, owner, write_all}
use container_provisioner_k.Dynamo.History.{Call, create_call, after_calls, after_calls-owner}
use container_provisioner_k.Dynamo.Reserve.{reserve_node_port-IsFree}
use container_provisioner_k.Dynamo.Create.{get-create}
use container_provisioner_k.Dynamo.Deletion.{get-delete}
use container_provisioner_k.Dynamo.Refinement.{
  call, OwnerStep, owners, after_request, after_request-OwnerStep,
}
use container_provisioner_k.Dynamo.Listed.{
  Pages, last_page, next_page, items_of, ListsItems, list_all-ListsItems, used_node_port_count-sum,
}
use container_provisioner_k.Tests.Inputs.{stack, job}
use container_provisioner_k.Tests.Storage.{stack_id-nonempty}
use container_provisioner_k.Tests.Table.{
  holds, times, times-TimeLaws, table, table-ExpressionLaws, repository, repository-ClientLaws,
}

stack-IsStorable : IsStorable stack
stack-IsStorable = record {
  public_ip = λ h. none-some h;
  target_ports = (omega arith, tt);
  ports = ((omega arith, omega arith), tt);
  status = tt;
  ttl = omega arith;
  created = omega arith;
  updated = omega arith;
  milli = omega arith;
  bytes = omega arith;
}

stack_from_item-stack_to_item_example : stack_from_item times (stack_to_item times stack) ≡ ok stack
stack_from_item-stack_to_item_example =
    stack_from_item-stack_to_item times times-TimeLaws stack stack-IsStorable

job-IsStorableJob : IsStorableJob job
job-IsStorableJob = record {
  status = tt;
  total = omega arith;
  deleted = omega arith;
  not_found = omega arith;
  failed = omega arith;
  created = omega arith;
  updated = omega arith;
}

job_from_item-job_to_item_example : job_from_item times (job_to_item times job) ≡ ok job
job_from_item-job_to_item_example =
    job_from_item-job_to_item times times-TimeLaws job job-IsStorableJob

-- A row of a port that belongs to `stack_id`, or that is reserved where that is empty.
abbrev port_row : String → Item
port_row stack_id = entry "stack_id" (member_s stack_id) no_entry

-- The port 31001 is reserved, 31002 belongs to stack-0.
abbrev rows : Rows
rows pk sk =
    if pk == "PORTS" && sk == "PORT#31001"
    then some (port_row "")
    else if pk == "PORTS" && sk == "PORT#31002"
    then some (port_row "stack-0")
    else none

abbrev first_items : List Item
first_items = stack_to_item times stack ∷ []

abbrev second_items : List Item
second_items = stack_to_item times (record stack { stack_id = "stack-2"; created_at = 500 }) ∷ []

abbrev repo : DynamoRepository Rows
repo = repository first_items second_items

-- A round that finds 31002 owned, one that takes 31003; what is owned cannot be given back.
abbrev calls : List Call
calls =
    Call.reserve_call 31001 31003
    ∷ Call.create_call stack
    ∷ Call.release_call 31002
    ∷ Call.update_status_call "stack-1" Status.stopped ""
    ∷ Call.list_call
    ∷ []

owned : owner (rows "PORTS" (port_sk 31002)) ≡ some "stack-0"
unfolding owner find itoa
owned = refl

after_calls-owner_example :
    owner (after_calls repo calls rows "PORTS" (port_sk 31002)) ≡ some "stack-0"
after_calls-owner_example =
    after_calls-owner repo table (repository-ClientLaws first_items second_items)
      table-ExpressionLaws 31002 "stack-0" calls rows owned

reserved : (reserve_node_port repo 31001 31003 rows).0 ≡ ok 31003
unfolding reserve_node_port find holds owner itoa
reserved = refl

reserve_node_port-IsFree_example :
    (31001 ≤ 31003)
    × (31003 ≤ 31003)
    × (owner (rows "PORTS" (port_sk 31003)) ≡ none)
    × (owner ((reserve_node_port repo 31001 31003 rows).1 "PORTS" (port_sk 31003)) ≡ none)
reserve_node_port-IsFree_example =
    reserve_node_port-IsFree repo table (repository-ClientLaws first_items second_items)
      table-ExpressionLaws 31001 31003 31003 rows reserved

created : (create repo stack rows).0 ≡ ok tt
unfolding create find holds owner itoa
created = refl

read_back : (get repo "stack-1" (create repo stack rows).1).0 ≡ ok (some stack)
unfolding create get find holds owner itoa write_all stack_to_item parse_digits parse_int64
    format_int
read_back = refl

get-create_example :
    (some stack ≡ some stack)
    × All (λ p. owner (rows "PORTS" (port_sk p.node_port)) ≡ none) stack.ports
    × All
        (λ p. owner ((create repo stack rows).1 "PORTS" (port_sk p.node_port)) ≡ some "stack-1")
        stack.ports
get-create_example =
    get-create repo table (repository-ClientLaws first_items second_items) table-ExpressionLaws
      times-TimeLaws refl stack rows (some stack) stack-IsStorable stack_id-nonempty created
      read_back

abbrev created_rows : Rows
created_rows = (create repo stack rows).1

deleted : (delete repo "stack-1" created_rows).0 ≡ ok (some stack)
unfolding delete create get find holds owner itoa write_all stack_to_item parse_digits parse_int64
    format_int
deleted = refl

read_nothing : (get repo "stack-1" (delete repo "stack-1" created_rows).1).0 ≡ ok none
unfolding delete create get find holds owner itoa write_all stack_to_item parse_digits parse_int64
    format_int
read_nothing = refl

get-delete_example :
    ((get repo "stack-1" created_rows).0 ≡ ok (some stack))
    × Path (Option Stack) none none
    × All
        (λ p. (delete repo "stack-1" created_rows).1 "PORTS" (port_sk p.node_port) ≡ none)
        stack.ports
get-delete_example =
    get-delete repo table (repository-ClientLaws first_items second_items) refl "stack-1" stack
      created_rows none deleted read_nothing

after_request-OwnerStep_example :
    OwnerStep
      (call (create_call stack))
      (owners table rows)
      (owners table (after_request repo (call (create_call stack)) rows))
after_request-OwnerStep_example =
    after_request-OwnerStep repo table (repository-ClientLaws first_items second_items)
      table-ExpressionLaws (call (create_call stack)) rows stack_id-nonempty

map_dynamo_tx_error_cases_example :
    let e = transaction_canceled "canceled" (some "None" ∷ some "ConditionalCheckFailed" ∷ []) in
    ((j : ℕ) × (tx_condition_failed_at e (suc j) ≡ true)
      × ((i : ℕ) → i < suc j → tx_condition_failed_at e i ≡ false)
      × (map_dynamo_tx_error e ≡ sentinel no_available_node_port))
    ⊎ ((map_dynamo_tx_error e ≡ e)
        × ((tx_condition_failed_at e 0 ≡ true) ⊎ ((i : ℕ) → tx_condition_failed_at e i ≡ false)))
map_dynamo_tx_error_cases_example =
    map_dynamo_tx_error_cases
      (transaction_canceled "canceled" (some "None" ∷ some "ConditionalCheckFailed" ∷ []))

abbrev more_key : Item
more_key = entry "pk" (member_s "more") no_entry

abbrev pages : List QueryOutput
pages =
    record { items = first_items; count = 3; last_evaluated_key = more_key }
    ∷ record { items = second_items; count = 4; last_evaluated_key = no_entry }
    ∷ []

read :
    (input : Item → QueryInput)
    → (input no_entry).exclusive_start_key ≡ no_entry
    → (input more_key).exclusive_start_key ≡ more_key
    → Pages repo input 2 no_entry rows pages rows
read input first second =
    next_page 1 no_entry rows rows rows _ _ (rw first refl) refl
      (last_page more_key rows rows _ (rw second refl) refl)

list_all-ListsItems_example : ListsItems times (items_of pages) (list_all repo rows).0
list_all-ListsItems_example =
    list_all-ListsItems repo 2 rows rows pages (read (all_query repo) refl refl) (omega arith)

used_node_port_count-sum_example : used_node_port_count repo rows ≡ (ok 7, rows)
used_node_port_count-sum_example =
    used_node_port_count-sum repo 2 rows rows pages (read (port_query repo) refl refl) (omega arith)
