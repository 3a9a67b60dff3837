-- ===== src/Service/Upholds/Change.antt =====
-- Create, the batch jobs and the cleanup keep what their calls keep.
use Prim.Native.String.{◌++◌}
use text.Mathlib.TextLemmas.{append-eq-nil_iff}
use container_provisioner_k.Base.{
  ℕ, zero, suc, ◌+◌, ◌&&◌, String, Bool, true, false, Option, none, some, List, [], ◌∷◌, ◌≢◌, inl,
  inr, Bool-cases, Option-cases, string_eq, arith, length, ◌==◌, nat_eq,
}
use container_provisioner_k.Errors.{Error, ok, err}
use container_provisioner_k.Op.{Op, raise, Outcome-cases, Result-cases}
use container_provisioner_k.Models.{
  Time, Stack, BatchDeleteJob, JobStatus, PortSpec, PortMapping, CreateInput,
}
use container_provisioner_k.Kubernetes.{ProvisionResult}
use container_provisioner_k.Validator.{ValidationResult, validate_pod_spec}
use container_provisioner_k.Service.{Service, new_id}
use container_provisioner_k.Service.Upholds.{
  Keeps, bind-Keeps, attempt-Keeps, finish-Keeps, new_id-keeps, Upholds,
}
use container_provisioner_k.Service.Upholds.Query.{delete-Keeps}
use container_provisioner_k.Service.Provision.{
  port_bound, release_ports, reserve_ports, record_stack, create_rounds, create, request, new_stack,
  with_result, value_or_nil, is_node_port_allocated_error, map_provision_error,
}
use container_provisioner_k.Service.Batch.{
  save_job, delete_each, process_job, run_batch_delete, start_batch_delete, get_batch_delete_job,
  count_result, final_status,
}

prefix-nonempty : (x : String) → ("stack-" ++ x) ≢ ""
prefix-nonempty x h =
    absurd (ground (arith, (string_eq.beq_iff "stack-" "").1 ((append-eq-nil_iff.0 h).0)))

module _ {W Q : Type 0} {s : Service W Q} {P : W → Type 0} (u : Upholds s P) where
  release_ports-Keeps : (ports : List ℕ) → Keeps P (release_ports s ports)
  unfolding release_ports
  release_ports-Keeps [] = record { after = λ w h. h }
  release_ports-Keeps (p ∷ ps) =
      bind-Keeps (attempt-Keeps (u.release p)) (λ _. release_ports-Keeps ps)

  reserve_ports-Keeps :
      (targets : List PortSpec) (ports : List PortMapping) (reserved : List ℕ)
      → Keeps P (reserve_ports s targets ports reserved)
  unfolding reserve_ports
  reserve_ports-Keeps [] ports reserved = record { after = λ w h. h }
  reserve_ports-Keeps (target ∷ targets) ports reserved = record {
    after = λ w h.
        let k =
          (u.reserve (port_bound s.cfg.node_port_min) (port_bound s.cfg.node_port_max)).after w h in
        elim (Outcome-cases (
          s.repo.reserve_node_port (port_bound s.cfg.node_port_min) (port_bound s.cfg.node_port_max)
            w)) [
              | inl (p, w1, e) ↦ rw e ((reserve_ports-Keeps targets _ _).after w1 (rw e at k))
              | inr (x, w1, e) ↦
                  rw e (
                    (finish-Keeps (release_ports-Keeps reserved) (λ _. err x)).after w1 (rw e at k))
            ];
  }

  record_stack-Keeps :
      (st : Stack) (reserved : List ℕ) (result : ProvisionResult)
      → st.stack_id ≢ ""
      → Keeps P (record_stack s st reserved result)
  unfolding record_stack
  record_stack-Keeps st reserved result n = record {
    after = λ w h.
        let (ip, w1) = s.k8s.get_node_public_ip result.node_id w in
        let st' = with_result s st result (value_or_nil s ip) in
        let k = (u.create st' n).after w1 ((u.public_ip result.node_id).after w h) in
        elim (Outcome-cases (s.repo.create st' w1)) [
          | inl (t, w2, e) ↦ rw e (rw e at k)
          | inr (x, w2, e) ↦ rw e (
              (bind-Keeps (attempt-Keeps (u.delete_pod st'.namespace st'.pod_id st'.service_name))
                  (λ _. finish-Keeps (release_ports-Keeps reserved) (λ _. err x))).after
                w2 (rw e at k))
        ];
  }

  create_rounds-Keeps :
      (valid : ValidationResult) (stack_id : String) (now : Time) (rounds round : ℕ)
      (last : Option Error)
      → stack_id ≢ ""
      → Keeps P (create_rounds s valid stack_id now rounds round last)
  unfolding create_rounds
  create_rounds-Keeps valid stack_id now zero round last n = record { after = λ w h. h }
  create_rounds-Keeps valid stack_id now (suc rounds) round last n =
      bind-Keeps (reserve_ports-Keeps valid.target_ports [] []) (λ reservation. record {
        after = λ w h.
            let req = request s valid stack_id round reservation.0 in
            let k = (u.create_pod req).after w h in
            elim (Outcome-cases (s.k8s.create_pod_and_service req w)) [
              | inl (result, w1, e) ↦ rw e (
                  (record_stack-Keeps (new_stack s valid stack_id now reservation.0) reservation.1
                      result n).after
                    w1 (rw e at k))
              | inr (x, w1, e) ↦ rw e (
                  (bind-Keeps (release_ports-Keeps reservation.1) (λ _.
                      retry-Keeps (round == 0 && is_node_port_allocated_error x) x (
                        create_rounds-Keeps valid stack_id now rounds (round + 1) (some x)
                          n))).after
                    w1 (rw e at k))
            ];
      })
    where
      retry-Keeps :
          (b : Bool) (x : Error) {again : Op W Stack}
          → Keeps P again
          → Keeps P
              (elim b as (λ _. Op W Stack) [ true ↦ again | false ↦ raise (map_provision_error x) ])
      retry-Keeps true x k = k
      retry-Keeps false x k = record { after = λ w h. h }

  new_id-nonempty : (w : W) → (new_id s "stack-" w).0 ≢ ""
  unfolding new_id
  new_id-nonempty w = elim (Option-cases (s.random_bytes w).0) [
    | inl e ↦ rw (e, new_id) (prefix-nonempty _)
    | inr (bs, e) ↦ rw (e, new_id) (prefix-nonempty _)
  ]

  pub create-Keeps : (input : CreateInput) → Keeps P (create s input)
  unfolding create
  create-Keeps input = record {
    after = λ w h.
        elim (Result-cases (validate_pod_spec s.validator input.pod_spec_yml input.target_ports)) [
          | inr (x, e) ↦ rw e h
          | inl (valid, e) ↦ rw e (
              (create_rounds-Keeps valid _ _ 2 0 none (new_id-nonempty w)).after _
                (u.clock _ (new_id-keeps u "stack-" w h)))
        ];
  }

  save_job-Keeps : (job : BatchDeleteJob) → Keeps P (save_job s job)
  unfolding save_job
  save_job-Keeps job = record {
    after = λ w h.
        (finish-Keeps (attempt-Keeps (u.update_job (record job { updated_at = (s.now w).0 })))
            (λ _. ok (record job { updated_at = (s.now w).0 }))).after
          _ (u.clock w h);
  }

  delete_each-Keeps : (ids : List String) (job : BatchDeleteJob) → Keeps P (delete_each s ids job)
  unfolding delete_each
  delete_each-Keeps [] job = record { after = λ w h. h }
  delete_each-Keeps (id ∷ ids) job =
      bind-Keeps (attempt-Keeps (delete-Keeps u id))
        (λ r. bind-Keeps (save_job-Keeps (count_result id r job)) (delete_each-Keeps ids))

  process_job-Keeps : (ids : List String) (job : BatchDeleteJob) → Keeps P (process_job s ids job)
  unfolding process_job
  process_job-Keeps ids job =
      bind-Keeps (save_job-Keeps (record job { status = JobStatus.running })) (λ started.
        bind-Keeps (delete_each-Keeps ids started)
          (λ processed. save_job-Keeps (record processed { status = final_status processed })))

  pub run_batch_delete-Keeps :
      (job_id : String) (ids : List String) → Keeps P (run_batch_delete s job_id ids)
  unfolding run_batch_delete
  run_batch_delete-Keeps job_id ids = record {
    after = λ w h.
        let k = (u.get_job job_id).after w h in
        elim (Outcome-cases (s.repo.get_batch_delete_job job_id w)) [
          | inr (x, w1, e) ↦ rw e (rw e at k)
          | inl (found, w1, e) ↦ elim (Option-cases found) [
            | inl p ↦ rw (e, p) (rw e at k)
            | inr (job, p) ↦
                rw (e, p)
                  ((finish-Keeps (process_job-Keeps ids job) (λ _. ok tt)).after w1 (rw e at k))
          ]
        ];
  }

  pub start_batch_delete-Keeps : (ids : List String) → Keeps P (start_batch_delete s ids)
  unfolding start_batch_delete
  start_batch_delete-Keeps ids = record {
    after = λ w h. elim (Bool-cases (length ids == 0)) [
      | inl b ↦ rw b h
      | inr b ↦ rw b (
          (finish-Keeps (u.create_job _) (λ _. ok _)).after _
            (u.clock _ (new_id-keeps u "job-" w h)))
    ];
  }

  pub get_batch_delete_job-Keeps : (id : String) → Keeps P (get_batch_delete_job s id)
  unfolding get_batch_delete_job
  get_batch_delete_job-Keeps id = bind-Keeps (u.get_job id) (λ found. elim (Option-cases found) [
    | inl e ↦ rw e (record { after = λ w h. h })
    | inr (job, e) ↦ rw e (record { after = λ w h. h })
  ])
