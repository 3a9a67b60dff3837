-- ===== src/Service/Upholds.antt =====
-- What an operation of internal/stack/service.go keeps true of the world, when every call that it
-- makes of the repository, the cluster and the clock keeps it true.
pub mod Query
pub mod Change
pub mod Clean
use container_provisioner_k.Base.{
  ℕ, suc, String, true, false, Option, none, some, List, [], ◌∷◌, ◌++◌ as append, ◌≡◌, ◌≢◌, refl,
  inl, inr, Bool-cases, Option-cases, string_eq, arith,
}
use container_provisioner_k.Errors.{Error, Result, ok, err}
use container_provisioner_k.Op.{Op, lift, attempt, ◌>>=◌, Outcome-cases, Result-cases}
use container_provisioner_k.Models.{Status, Stack, BatchDeleteJob, PortSpec, PortMapping}
use container_provisioner_k.Kubernetes.{ProvisionRequest, PodInfo, ProvisionResult}
use container_provisioner_k.Service.{Service, new_id}

-- The operation leaves `P` true, whether it succeeds or fails.
pub record Keeps {W A : Type 0} (P : W → Type 0) (m : Op W A) : Type 0 where
  pub after : (w : W) → P w → P (m w).1

module _ {W : Type 0} {P : W → Type 0} where
  pub bind-Keeps :
      {A B : Type 0} {m : Op W A} {f : A → Op W B}
      → Keeps P m
      → ((a : A) → Keeps P (f a))
      → Keeps P (m >>= f)
  bind-Keeps {m} km kf = record {
    after = λ w h. elim (Outcome-cases (m w)) [
      | inl (a, w', e) ↦ rw e ((kf a).after w' (rw e at (km.after w h)))
      | inr (x, w', e) ↦ rw e (rw e at (km.after w h))
    ];
  }

  -- The last call of an operation, whose result `g` turns into the operation's.
  pub finish-Keeps :
      {A B : Type 0} {m : Op W A} → Keeps P m → (g : A → Result B) → Keeps P (m >>= λ a. lift (g a))
  finish-Keeps km g = bind-Keeps {f = λ a. lift (g a)} km (λ a. record { after = λ w h. h })

  pub attempt-Keeps : {A : Type 0} {m : Op W A} → Keeps P m → Keeps P (attempt m)
  attempt-Keeps km = record { after = km.after }

-- Each call that the service makes keeps `P`; a stack is only stored under an id that is not empty.
pub record Upholds {W Q : Type 0} (s : Service W Q) (P : W → Type 0) : Type 0 where
  pub create : (st : Stack) → st.stack_id ≢ "" → Keeps P (s.repo.create st)
  pub get : (id : String) → Keeps P (s.repo.get id)
  pub delete : (id : String) → Keeps P (s.repo.delete id)
  pub list_all : Keeps P s.repo.list_all
  pub reserve : (min max : ℕ) → Keeps P (s.repo.reserve_node_port min max)
  pub release : (port : ℕ) → Keeps P (s.repo.release_node_port port)
  pub used_count : Keeps P s.repo.used_node_port_count
  pub update_status :
      (id : String) (status : Status) (node : String)
      → Keeps P (s.repo.update_status id status node)
  pub create_job : (job : BatchDeleteJob) → Keeps P (s.repo.create_batch_delete_job job)
  pub update_job : (job : BatchDeleteJob) → Keeps P (s.repo.update_batch_delete_job job)
  pub get_job : (id : String) → Keeps P (s.repo.get_batch_delete_job id)
  pub create_pod : (req : ProvisionRequest) → Keeps P (s.k8s.create_pod_and_service req)
  pub delete_pod : (ns pod svc : String) → Keeps P (s.k8s.delete_pod_and_service ns pod svc)
  pub pod_status : (ns pod : String) → Keeps P (s.k8s.get_pod_status ns pod)
  pub pods : (ns : String) → Keeps P (s.k8s.list_pods ns)
  pub pods_created : (ns : String) → Keeps P (s.k8s.list_pods_with_creation ns)
  pub services : (ns : String) → Keeps P (s.k8s.list_services ns)
  pub node_exists : (id : String) → Keeps P (s.k8s.node_exists id)
  pub public_ip : (id : String) → Keeps P (s.k8s.get_node_public_ip id)
  pub clock : (w : W) → P w → P (s.now w).1
  pub nano : (w : W) → P w → P (s.unix_nano w).1
  pub entropy : (w : W) → P w → P (s.random_bytes w).1

module _ {W Q : Type 0} {s : Service W Q} {P : W → Type 0} (u : Upholds s P) where
  pub new_id-keeps : (prefix : String) (w : W) → P w → P (new_id s prefix w).1
  unfolding new_id
  new_id-keeps prefix w h = elim (Option-cases (s.random_bytes w).0) [
    | inl e ↦ rw (e, new_id) (u.nano (s.random_bytes w).1 (u.entropy w h))
    | inr (bs, e) ↦ rw (e, new_id) (u.entropy w h)
  ]
