-- ===== src/Dynamo.antt =====
-- internal/stack/dynamodb.go: the repository that keeps stacks, node ports and batch jobs in one
-- table of DynamoDB. The client, the clock, the random generator and the printing of times are
-- parameters; `rounds` bounds the pages that a query reads.
pub mod Items
pub mod Codec
pub mod RoundTrip
pub mod Client
pub mod Keys
pub mod Failures
pub mod Ports
pub mod Pages
pub mod Table
pub mod Owned
pub mod Owners
pub mod Locks
pub mod Reads
pub mod History
pub mod Reserve
pub mod Claims
pub mod Create
pub mod Refusal
pub mod Refinement
pub mod Deletion
pub mod Listed
use Prim.Native.String.{◌++◌}
use container_provisioner_k.Base.{
  ℕ, zero, suc, ◌+◌, ◌-◌, ◌*◌, ◌/◌, ◌%◌, ◌^◌, String, Bool, true, false, Option, none, some, List,
  [], ◌∷◌, ◌++◌ as append, map, if◌then◌else◌, ltb, ◌==◌, nat_eq, string_eq,
}
use container_provisioner_k.Base.Int.{ℤ, pos, negsuc, pos_part, neg_part}
use container_provisioner_k.Base.Text.{itoa, format_int}
use container_provisioner_k.Config.{Duration}
use container_provisioner_k.Errors.{
  Error, Result, ok, err, sentinel, plain, not_found, no_available_node_port, is_condition_failed,
  cancellation_codes,
}
use container_provisioner_k.Op.{Op, pure, raise, lift, attempt, ◌>>=◌}
use container_provisioner_k.Models.{Time, Status, PortMapping, Stack, BatchDeleteJob}
use container_provisioner_k.Repository.{sort_by_creation}
use container_provisioner_k.Service.{RepositoryClientApi}
use container_provisioner_k.Dynamo.Items.{Item, no_entry, entry, is_empty, av_s, av_n, TimeLibrary}
use container_provisioner_k.Dynamo.Codec.{
  status_text, stack_to_item, stack_from_item, job_to_item, job_from_item,
}
use container_provisioner_k.Dynamo.Keys.{
  stack_meta_pk, job_pk, stack_key, job_key, port_key, row_is_new, row_exists, is_claimable,
  set_owner,
}
use container_provisioner_k.Dynamo.Failures.{
  map_dynamo_tx_error, tx_condition_failed_at, map_error, missing_row,
}
use container_provisioner_k.Dynamo.Client.{
  GetItemInput, PutItemInput, DeleteItemInput, UpdateItemInput, TransactWriteItem, put_write,
  update_write, delete_write, QueryInput, QueryOutput, DynamoClient,
}

pub record DynamoRepository (W : Type 0) : Type 0 where
  pub client : DynamoClient W
  pub table : String
  pub consistent_read : Bool
  pub port_lock_ttl : Duration
  pub random_int : ℕ → W → ℕ × W
  pub now : W → Time × W
  pub times : TimeLibrary
  pub rounds : ℕ

module _ {W : Type 0} (r : DynamoRepository W) where
  abbrev pub clock : Op W Time
  clock w = let (t, w') = r.now w in (ok t, w')

  abbrev pub now_rfc3339 : Op W String
  now_rfc3339 = clock >>= λ t. pure (r.times.format t)

  abbrev pub stack_put : Stack → PutItemInput
  stack_put st = record {
    table_name = r.table;
    item = entry "pk" (av_s (stack_meta_pk st.stack_id)) (
        entry "sk" (av_s "META")
          (entry "item_type" (av_s "stack_by_id") (stack_to_item r.times st)));
    condition = row_is_new;
  }

  abbrev pub port_claim : String → String → PortMapping → UpdateItemInput
  port_claim stack_id now p = record {
    table_name = r.table;
    key = port_key p.node_port;
    update = set_owner;
    condition = is_claimable;
    attribute_values =
        entry ":sid" (av_s stack_id) (entry ":now" (av_s now) (entry ":empty" (av_s "") no_entry));
  }

  unfoldable pub create_items : String → Stack → List TransactWriteItem
  create_items now st =
      put_write (stack_put st) ∷ map (λ p. update_write (port_claim st.stack_id now p)) st.ports

  abbrev no_ports : List PortMapping → Bool
  no_ports [] = true
  no_ports (p ∷ ps) = false

  unfoldable pub create : Stack → Op W (Unit {0})
  unfolding create_items map_dynamo_tx_error
  create st = now_rfc3339 >>= λ now.
      if no_ports st.ports
      then raise (sentinel no_available_node_port)
      else (attempt (r.client.transact_write_items (create_items now st)) >>= λ outcome.
          lift (map_error map_dynamo_tx_error outcome))

  -- What Get and GetBatchDeleteJob make of the item that is read.
  abbrev pub decoded : {A : Type 0} → (Item → Result A) → Item → Result (Option A)
  decoded read item =
      if is_empty item then ok none else elim (read item) [ ok a ↦ ok (some a) | err e ↦ err e ]

  abbrev pub stack_read : String → GetItemInput
  stack_read stack_id = record {
    table_name = r.table;
    consistent_read = r.consistent_read;
    key = stack_key stack_id;
  }

  unfoldable pub get : String → Op W (Option Stack)
  unfolding stack_from_item
  get stack_id = r.client.get_item (stack_read stack_id) >>= λ item.
      lift (decoded (stack_from_item r.times) item)

  abbrev pub stack_delete : Stack → DeleteItemInput
  stack_delete st = record {
    table_name = r.table;
    key = stack_key st.stack_id;
    condition = row_exists;
    attribute_values = no_entry;
  }

  abbrev pub port_delete : PortMapping → DeleteItemInput
  port_delete p = record {
    table_name = r.table;
    key = port_key p.node_port;
    condition = "";
    attribute_values = no_entry;
  }

  unfoldable pub delete_items : Stack → List TransactWriteItem
  delete_items st =
      delete_write (stack_delete st) ∷ map (λ p. delete_write (port_delete p)) st.ports

  abbrev deleted_stack : Stack → Result (Unit {0}) → Result (Option Stack)
  deleted_stack st (ok a) = ok (some st)
  deleted_stack st (err e) = if tx_condition_failed_at e 0 then ok none else err e

  abbrev pub delete_found : Option Stack → Op W (Option Stack)
  delete_found none = pure none
  delete_found (some st) = attempt (r.client.transact_write_items (delete_items st)) >>= λ outcome.
      lift (deleted_stack st outcome)

  unfoldable pub delete : String → Op W (Option Stack)
  unfolding get delete_items tx_condition_failed_at
  delete stack_id = get stack_id >>= λ found. delete_found found

  abbrev pub job_put : String → BatchDeleteJob → PutItemInput
  job_put condition job = record {
    table_name = r.table;
    item = entry "pk" (av_s (job_pk job.job_id)) (
        entry "sk" (av_s "META")
          (entry "item_type" (av_s "batch_delete_job") (job_to_item r.times job)));
    condition = condition;
  }

  unfoldable pub create_batch_delete_job : BatchDeleteJob → Op W (Unit {0})
  unfolding job_to_item
  create_batch_delete_job job = r.client.put_item (job_put row_is_new job)

  unfoldable pub update_batch_delete_job : BatchDeleteJob → Op W (Unit {0})
  unfolding job_to_item
  update_batch_delete_job job = attempt (r.client.put_item (job_put row_exists job)) >>= λ outcome.
      lift (map_error missing_row outcome)

  abbrev pub job_read : String → GetItemInput
  job_read job_id = record {
    table_name = r.table;
    consistent_read = r.consistent_read;
    key = job_key job_id;
  }

  unfoldable pub get_batch_delete_job : String → Op W (Option BatchDeleteJob)
  unfolding job_from_item
  get_batch_delete_job job_id =
      r.client.get_item (job_read job_id) >>= λ item. lift (decoded (job_from_item r.times) item)
