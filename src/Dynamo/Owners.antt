-- ===== src/Dynamo/Owners.antt =====
-- Create, the batch jobs, ReleaseNodePort and UpdateStatus of internal/stack/dynamodb.go leave the row
-- of an owned node port alone.
use container_provisioner_k.Base.{
  ℕ, String, List, [], ◌∷◌, map, All, string_eq, nat_eq, refl, sym, some, Option, inl, inr,
  Bool-cases,
}
use container_provisioner_k.Models.{Status, PortMapping, Stack, BatchDeleteJob}
use container_provisioner_k.Service.Upholds.{Keeps, finish-Keeps}
use container_provisioner_k.Dynamo
use container_provisioner_k.Dynamo.Client
use container_provisioner_k.Dynamo.Keys
use container_provisioner_k.Dynamo.Ports
use container_provisioner_k.Dynamo.{DynamoRepository}
use container_provisioner_k.Dynamo.Items.{find}
use container_provisioner_k.Dynamo.Codec.{stack_from_item, job_from_item}
use container_provisioner_k.Dynamo.Table.{
  DynamoTable, owner, ClientLaws, ExpressionLaws, put_row, update_row, delete_row, transact_row,
}
use container_provisioner_k.Dynamo.Owned.{
  IsCareful, stack_pk_lem, job_pk_lem, claims_tables, IsOwned, commits-Keeps, commit-Keeps,
  same-Keeps, now_rfc3339-Keeps,
}

module _ {W : Type 0} (r : DynamoRepository W) (t : DynamoTable W) (laws : ClientLaws r t)
    (meaning : ExpressionLaws t) (sk s : String) where
  claims-IsCareful :
      (st : Stack) (now : String) (ps : List PortMapping)
      → All IsCareful (
          map
            (transact_row t)
            (map (λ p. Client.update_write (Dynamo.port_claim r st.stack_id now p)) ps))
  unfolding find
  claims-IsCareful st now [] = tt
  claims-IsCareful st now (p ∷ ps) =
      ((λ e row h. (meaning.claimable _ row refl h).1), claims-IsCareful st now ps)

  stack_put-IsCareful : (st : Stack) → IsCareful (put_row t (Dynamo.stack_put r st))
  unfolding find
  stack_put-IsCareful st e = absurd (stack_pk_lem st.stack_id e)

  create_items-Keeps :
      (now : String) (st : Stack)
      → Keeps (IsOwned t sk (some s)) (r.client.transact_write_items (Dynamo.create_items r now st))
  unfolding Dynamo.create_items
  create_items-Keeps now st =
      commits-Keeps t sk s (r.client.transact_write_items (Dynamo.create_items r now st))
        (map (transact_row t) (Dynamo.create_items r now st))
        (stack_put-IsCareful st, claims-IsCareful st now st.ports)
        (λ w.
          laws.transact (Dynamo.create_items r now st) w
            (refl, claims_tables r st.stack_id now st.ports))

  pub create-Keeps : (st : Stack) → Keeps (IsOwned t sk (some s)) (Dynamo.create r st)
  unfolding Dynamo.create
  create-Keeps st = record {
    after = λ w owned.
        let now_owned = (now_rfc3339-Keeps r t laws sk (some s)).after w owned in
        elim (Bool-cases (Dynamo.no_ports r st.ports)) [
          | inl e ↦ rw e now_owned
          | inr e ↦
              rw e
                ((create_items-Keeps (r.times.format (r.now w).0) st).after (r.now w).1 now_owned)
        ];
  }

module _ {W : Type 0} (r : DynamoRepository W) (t : DynamoTable W) (laws : ClientLaws r t)
    (meaning : ExpressionLaws t) (sk : String) (s : Option String) where
  pub get-Keeps : (id : String) → Keeps (IsOwned t sk s) (Dynamo.get r id)
  unfolding Dynamo.get
  get-Keeps id =
      finish-Keeps
        (same-Keeps t sk s (r.client.get_item (Dynamo.stack_read r id))
          (laws.get (Dynamo.stack_read r id)))
        (Dynamo.decoded r (stack_from_item r.times))

  pub create_job-Keeps :
      (job : BatchDeleteJob) → Keeps (IsOwned t sk s) (Dynamo.create_batch_delete_job r job)
  unfolding Dynamo.create_batch_delete_job find
  create_job-Keeps job =
      commit-Keeps t sk s _ (put_row t (Dynamo.job_put r Keys.row_is_new job))
        (λ e. absurd (job_pk_lem job.job_id e)) (λ w. laws.put _ w refl)

  pub update_job-Keeps :
      (job : BatchDeleteJob) → Keeps (IsOwned t sk s) (Dynamo.update_batch_delete_job r job)
  unfolding Dynamo.update_batch_delete_job find
  update_job-Keeps job = record {
    after =
        (commit-Keeps t sk s (r.client.put_item (Dynamo.job_put r Keys.row_exists job))
          (put_row t (Dynamo.job_put r Keys.row_exists job)) (λ e. absurd (job_pk_lem job.job_id e))
          (λ w. laws.put _ w refl)).after;
  }

  pub get_job-Keeps : (id : String) → Keeps (IsOwned t sk s) (Dynamo.get_batch_delete_job r id)
  unfolding Dynamo.get_batch_delete_job
  get_job-Keeps id =
      finish-Keeps
        (same-Keeps t sk s (r.client.get_item (Dynamo.job_read r id))
          (laws.get (Dynamo.job_read r id)))
        (Dynamo.decoded r (job_from_item r.times))

  pub release-Keeps : (port : ℕ) → Keeps (IsOwned t sk s) (Ports.release_node_port r port)
  unfolding Ports.release_node_port find owner
  release-Keeps port = record {
    after =
        (commit-Keeps t sk s (r.client.delete_item (Ports.lock_delete r port))
          (delete_row t (Ports.lock_delete r port)) (λ e row h. sym (meaning.unowned _ row refl h))
          (λ w. laws.delete _ w refl)).after;
  }

  pub update_status-Keeps :
      (id : String) (status : Status) (node : String)
      → Keeps (IsOwned t sk s) (Ports.update_status r id status node)
  unfolding Ports.update_status find
  update_status-Keeps id status node = record {
    after = λ w owned.
        let i = Ports.status_update r (r.times.format (r.now w).0) id status node in
        (commit-Keeps t sk s (r.client.update_item i) (update_row t i)
            (λ e. absurd (stack_pk_lem id e)) (λ w'. laws.update i w' refl)).after
          (r.now w).1 ((now_rfc3339-Keeps r t laws sk s).after w owned);
  }
