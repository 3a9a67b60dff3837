-- ===== src/Memory/Deletion.antt =====
-- Service.Delete of internal/stack/service.go over the in-memory repository and the simulated cluster.
use container_provisioner_k.Base.{ℕ, String, none, some, ◌≡◌, refl, true, arith, nat_eq, string_eq}
use container_provisioner_k.Base.Dict.{lookup, erase, lookup-erase, beq_refl}
use container_provisioner_k.Config.{StackConfig}
use container_provisioner_k.Errors.{ok, err, sentinel, not_found}
use container_provisioner_k.Models.{Stack}
use container_provisioner_k.Pod.{KubeLibrary}
use container_provisioner_k.Repository
use container_provisioner_k.Repository.{drop_ports}
use container_provisioner_k.Repository.Ports.{has_port, lookup-drop_ports}
use container_provisioner_k.Service.Query
use container_provisioner_k.Kubernetes
use container_provisioner_k.Memory.{World, memory_service}

module _ {Q : Type 0} (cfg : StackConfig) (lib : KubeLibrary Q) where
  missing :
      (id : String) (w : World)
      → lookup id w.repo.stacks ≡ none
      → Query.get_details (memory_service cfg lib) id w ≡ (err (sentinel not_found), w)
  unfolding Query.get_details Query.refresh_status Query.get_or_not_found Repository.get
  missing id w e = rw e refl

  removed :
      (id : String) (r : Repository.InMemoryRepository) (st : Stack)
      → lookup id r.stacks ≡ some st
      → Repository.delete id r ≡ (
        ok (some st),
        record r { stacks = erase id r.stacks; ports = drop_ports st.ports r.ports },
      )
  unfolding Repository.delete
  removed id r st e = rw (e, Repository.delete) refl

  -- Deleting a stack that is stored under the id succeeds, whatever the cluster answers to the deletion
  -- of the pod and the service, though docs/index.md shows an error of that deletion as the error of a
  -- batch job; afterwards the id is not found, and each node port of the stack is free.
  pub delete-gone :
      (id : String) (w : World) (st : Stack)
      → lookup id w.repo.stacks ≡ some st
      → (w' : World) × (Query.delete (memory_service cfg lib) id w ≡ (ok tt, w'))
        × (Query.get_details (memory_service cfg lib) id w' ≡ (err (sentinel not_found), w'))
        × ((n : ℕ) → has_port n st.ports ≡ true → lookup n w'.repo.ports ≡ none)
  unfolding Query.delete Query.get_or_not_found Repository.get
  delete-gone id w st e =
      let w' : World = record w {
        cluster =
            (Kubernetes.delete_pod_and_service st.namespace st.pod_id st.service_name w.cluster).1;
        repo = record w.repo {
          stacks = erase id w.repo.stacks;
          ports = drop_ports st.ports w.repo.ports;
        };
      } in
      let gone : lookup id w'.repo.stacks ≡ none =
        ground (arith, lookup-erase id id w.repo.stacks, beq_refl id) in
      (
        w',
        rw e (rw (removed id w.repo st e) refl),
        missing id w' gone,
        λ n h. ground (arith, lookup-drop_ports n st.ports w.repo.ports),
      )
