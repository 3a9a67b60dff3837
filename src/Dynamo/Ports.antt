-- ===== src/Dynamo/Ports.antt =====
-- The node ports and the status of internal/stack/dynamodb.go: ReserveNodePort, ReleaseNodePort,
-- UpdateStatus.
use container_provisioner_k.Base.{ℕ, zero, suc, ◌+◌, ◌-◌, ◌%◌, String, if◌then◌else◌, ◌==◌, nat_eq}
use container_provisioner_k.Base.Text.{itoa, format_int}
use container_provisioner_k.Errors.{
  Result, ok, err, sentinel, no_available_node_port, is_condition_failed,
}
use container_provisioner_k.Op.{Op, pure, raise, lift, attempt, ◌>>=◌}
use container_provisioner_k.Models.{Time, Status}
use container_provisioner_k.Dynamo.{DynamoRepository, clock, now_rfc3339}
use container_provisioner_k.Dynamo.Failures.{map_error, missing_row}
use container_provisioner_k.Dynamo.Keys.{
  port_key, port_sk, stack_key, row_is_new, row_exists, is_stale, is_unowned, set_lock, set_status,
  unix, stale_before,
}
use container_provisioner_k.Dynamo.Items.{no_entry, entry, av_s, av_n}
use container_provisioner_k.Dynamo.Codec.{status_text}
use container_provisioner_k.Dynamo.Client.{PutItemInput, DeleteItemInput, UpdateItemInput}

module _ {W : Type 0} (r : DynamoRepository W) where
  abbrev pub lock_put : String → Time → ℕ → PutItemInput
  lock_put now t port = record {
    table_name = r.table;
    item = entry "pk" (av_s "PORTS") (
        entry "sk" (av_s (port_sk port)) (
          entry "item_type" (av_s "port_lock") (
            entry "port" (av_n (itoa port)) (
              entry "created_at" (av_s now) (
                entry "locked_at" (av_n (format_int (unix t)))
                  (entry "stack_id" (av_s "") no_entry))))));
    condition = row_is_new;
  }

  abbrev pub lock_update : String → Time → ℕ → UpdateItemInput
  lock_update now t port = record {
    table_name = r.table;
    key = port_key port;
    update = set_lock;
    condition = is_stale;
    attribute_values = entry ":now" (av_s now) (
        entry ":locked_at" (av_n (format_int (unix t))) (
          entry ":empty" (av_s "")
            (entry ":stale_before" (av_n (format_int (stale_before t r.port_lock_ttl))) no_entry)));
  }

  -- What a round does with the outcome of the reclaiming update, and with that of the conditional
  -- put: the port, the next round, or an error.
  unfoldable pub reclaim_outcome : ℕ → Op W ℕ → Result (Unit {0}) → Op W ℕ
  reclaim_outcome port next (ok a) = pure port
  reclaim_outcome port next (err e) = next

  unfoldable pub put_outcome : String → Time → ℕ → Op W ℕ → Result (Unit {0}) → Op W ℕ
  unfolding reclaim_outcome
  put_outcome now t port next (ok a) = pure port
  put_outcome now t port next (err e) =
      if is_condition_failed e
      then (attempt (r.client.update_item (lock_update now t port)) >>= reclaim_outcome port next)
      else raise e

  unfoldable pub lock_round : String → Time → ℕ → Op W ℕ → Op W ℕ
  unfolding put_outcome
  lock_round now t port next =
      attempt (r.client.put_item (lock_put now t port)) >>= put_outcome now t port next

  -- The loop of ReserveNodePort from round `i` on, with `left` rounds left.
  unfoldable pub reserve_from : String → Time → ℕ → ℕ → ℕ → ℕ → ℕ → Op W ℕ
  unfolding lock_round
  reserve_from now t min total start zero i = raise (sentinel no_available_node_port)
  reserve_from now t min total start (suc left) i =
      lock_round now t (min + (start + i) % total) (reserve_from now t min total start left (i + 1))

  abbrev pub draw : ℕ → Op W ℕ
  draw limit w = let (n, w') = r.random_int limit w in (ok n, w')

  unfoldable pub reserve_node_port : ℕ → ℕ → Op W ℕ
  unfolding reserve_from
  reserve_node_port min max =
      let total = max + 1 - min in
      if total == 0
      then raise (sentinel no_available_node_port)
      else (draw total >>= λ start.
          now_rfc3339 r >>= λ now. clock r >>= λ t. reserve_from now t min total start total 0)

  abbrev pub lock_delete : ℕ → DeleteItemInput
  lock_delete port = record {
    table_name = r.table;
    key = port_key port;
    condition = is_unowned;
    attribute_values = entry ":empty" (av_s "") no_entry;
  }

  -- `if errors.As(err, &condErr) { return nil }`
  abbrev still_owned : Result (Unit {0}) → Result (Unit {0})
  still_owned (ok a) = ok a
  still_owned (err e) = if is_condition_failed e then ok tt else err e

  unfoldable pub release_node_port : ℕ → Op W (Unit {0})
  release_node_port port =
      attempt (r.client.delete_item (lock_delete port)) >>= λ outcome. lift (still_owned outcome)

  abbrev pub status_update : String → String → Status → String → UpdateItemInput
  status_update now stack_id status node_id = record {
    table_name = r.table;
    key = stack_key stack_id;
    update = set_status;
    condition = row_exists;
    attribute_values =
        entry ":status" (av_s (status_text status))
          (entry ":node" (av_s node_id) (entry ":now" (av_s now) no_entry));
  }

  unfoldable pub update_status : String → Status → String → Op W (Unit {0})
  update_status stack_id status node_id = now_rfc3339 r >>= λ now.
      attempt (r.client.update_item (status_update now stack_id status node_id)) >>= λ outcome.
      lift (map_error missing_row outcome)
