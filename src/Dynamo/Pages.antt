-- ===== src/Dynamo/Pages.antt =====
-- The queries of internal/stack/dynamodb.go, which read one page after the other: ListAll and
-- UsedNodePortCount; and the interface that the repository fills.
use container_provisioner_k.Base.{
  ℕ, zero, suc, ◌+◌, true, false, none, some, List, [], ◌∷◌, ◌++◌ as append, if◌then◌else◌,
}
use container_provisioner_k.Errors.{Error, Result, ok, err, plain}
use container_provisioner_k.Op.{Op, pure, raise, lift, ◌>>=◌}
use container_provisioner_k.Models.{Stack}
use container_provisioner_k.Repository.{sort_by_creation}
use container_provisioner_k.Service.{RepositoryClientApi}
use container_provisioner_k.Dynamo
use container_provisioner_k.Dynamo.{DynamoRepository}
use container_provisioner_k.Dynamo.Ports
use container_provisioner_k.Dynamo.Items.{Item, no_entry, entry, is_empty, av_s, TimeLibrary}
use container_provisioner_k.Dynamo.Codec.{stack_from_item}
use container_provisioner_k.Dynamo.Client.{QueryInput}

-- The loop over the items of a page, which stops at the first that is no stack.
abbrev pub before : Stack → Result (List Stack) → Result (List Stack)
before st (err e) = err e
before st (ok out) = ok (st ∷ out)

abbrev pub with_item : Result Stack → Result (List Stack) → Result (List Stack)
with_item (err e) out = err e
with_item (ok st) out = before st out

unfoldable pub read_page : TimeLibrary → List Item → Result (List Stack)
unfolding stack_from_item
read_page lib [] = ok []
read_page lib (item ∷ items) = with_item (stack_from_item lib item) (read_page lib items)

abbrev pub out_of_rounds : Error
out_of_rounds = plain "more pages than rounds"

module _ {W : Type 0} (r : DynamoRepository W) where
  abbrev pub all_query : Item → QueryInput
  all_query start_key = record {
    table_name = r.table;
    index_name = some "gsi1";
    key_condition = "gsi1pk = :pk";
    attribute_values = entry ":pk" (av_s "STACKS") no_entry;
    select_count = false;
    exclusive_start_key = start_key;
  }

  abbrev pub port_query : Item → QueryInput
  port_query start_key = record {
    table_name = r.table;
    index_name = none;
    key_condition = "pk = :pk";
    attribute_values = entry ":pk" (av_s "PORTS") no_entry;
    select_count = true;
    exclusive_start_key = start_key;
  }

  -- Whether a page is the last; `more` reads the pages after it.
  unfoldable pub more_stacks : Op W (List Stack) → Item → List Stack → Op W (List Stack)
  more_stacks more last_evaluated_key out =
      if is_empty last_evaluated_key then pure out else (more >>= λ rest. pure (append out rest))

  -- The stacks of the pages from the one after `start_key` on.
  unfoldable pub collect : ℕ → Item → Op W (List Stack)
  unfolding read_page more_stacks
  collect zero start_key = raise out_of_rounds
  collect (suc left) start_key = r.client.query (all_query start_key) >>= λ page.
      lift (read_page r.times page.items) >>= λ out.
      more_stacks (collect left page.last_evaluated_key) page.last_evaluated_key out

  unfoldable pub list_all : Op W (List Stack)
  unfolding collect sort_by_creation
  list_all = collect r.rounds no_entry >>= λ out. pure (sort_by_creation out)

  unfoldable pub more_count : Op W ℕ → Item → ℕ → Op W ℕ
  more_count more last_evaluated_key total =
      if is_empty last_evaluated_key then pure total else more

  unfoldable pub count_pages : ℕ → ℕ → Item → Op W ℕ
  unfolding more_count
  count_pages zero total start_key = raise out_of_rounds
  count_pages (suc left) total start_key = r.client.query (port_query start_key) >>= λ page.
      more_count (count_pages left (total + page.count) page.last_evaluated_key)
        page.last_evaluated_key (total + page.count)

  unfoldable pub used_node_port_count : Op W ℕ
  unfolding count_pages
  used_node_port_count = count_pages r.rounds 0 no_entry

  abbrev pub dynamo_repository : RepositoryClientApi W
  dynamo_repository = record {
    create = Dynamo.create r;
    get = Dynamo.get r;
    delete = Dynamo.delete r;
    list_all = list_all;
    reserve_node_port = Ports.reserve_node_port r;
    release_node_port = Ports.release_node_port r;
    used_node_port_count = used_node_port_count;
    update_status = Ports.update_status r;
    create_batch_delete_job = Dynamo.create_batch_delete_job r;
    update_batch_delete_job = Dynamo.update_batch_delete_job r;
    get_batch_delete_job = Dynamo.get_batch_delete_job r;
  }
