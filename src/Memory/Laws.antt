-- ===== src/Memory/Laws.antt =====
-- The in-memory repository meets the port laws of the service.
use container_provisioner_k.Base.{
  ℕ, ◌+◌, ◌-◌, ◌%◌, none, some, ◌≡◌, refl, arith, if◌then◌else◌, ◌==◌, ◌&&◌, nat_eq, ap,
}
use container_provisioner_k.Base.Dict.{lookup, lookup-erase, lookup-insert}
use container_provisioner_k.Errors.{Result, ok, err}
use container_provisioner_k.Config.{StackConfig}
use container_provisioner_k.Models.{Stack}
use container_provisioner_k.Pod.{KubeLibrary}
use container_provisioner_k.Repository
use container_provisioner_k.Repository.{InMemoryRepository, is_reserved}
use container_provisioner_k.Repository.Ports.{has_port, lookup-claim_ports}
use container_provisioner_k.Repository.Cases.{create_cases, reserve_cases}
use container_provisioner_k.Repository.Reserve.{probe-some}
use container_provisioner_k.Service.Ports.{PortLaws}
use container_provisioner_k.Memory.{World, memory_service}

abbrev Reserves : InMemoryRepository → Result ℕ × InMemoryRepository → Type 0
Reserves r (ok port, r') =
    (lookup port r.ports ≡ none)
    × ((n : ℕ) → lookup n r'.ports ≡ (if port == n then some "" else lookup n r.ports))
Reserves r (err e, r') = (n : ℕ) → lookup n r'.ports ≡ lookup n r.ports

reserves :
    (draw min max : ℕ) (r : InMemoryRepository)
    → Reserves r (Repository.reserve_node_port draw min max r)
reserves draw min max r =
    reserve_cases (Reserves r) draw min max r (λ h n. refl) (λ h e n. refl)
      (λ port h e.
        ((probe-some min _ _ r.ports _ 0 port e).0, λ n. lookup-insert port n "" r.ports))

abbrev Creates : InMemoryRepository → Stack → Result (Unit {0}) × InMemoryRepository → Type 0
Creates r st (ok _, r') =
    (n : ℕ)
    → lookup n r'.ports ≡ (if has_port n st.ports then some st.stack_id else lookup n r.ports)
Creates r st (err e, r') = (n : ℕ) → lookup n r'.ports ≡ lookup n r.ports

creates : (st : Stack) (r : InMemoryRepository) → Creates r st (Repository.create st r)
creates st r =
    create_cases (Creates r st) st r (λ e n. refl)
      (λ e a n. lookup-claim_ports n st.stack_id st.ports r.ports)

releases :
    (port n : ℕ) (r : InMemoryRepository)
    → lookup n (Repository.release_node_port port r).1.ports
      ≡ (if port == n && is_reserved (lookup port r.ports) then none else lookup n r.ports)
unfolding Repository.release_node_port
releases port n r = ground (arith, lookup-erase port n r.ports)

-- The repository's part of a call's outcome.
abbrev inner : {A : Type 0} → Result A × World → Result A × InMemoryRepository
inner o = (o.0, o.1.repo)

module _ {Q : Type 0} (cfg : StackConfig) (lib : KubeLibrary Q) where
  pub memory-PortLaws : PortLaws (memory_service cfg lib)
  memory-PortLaws = record {
    owner = λ w n. lookup n w.repo.ports;
    reserve_ok = λ min max port w w' e.
        rw (ap inner e) at (reserves (w.draws w.taken % (max + 1 - min)) min max w.repo);
    reserve_err = λ min max x w w' e.
        rw (ap inner e) at (reserves (w.draws w.taken % (max + 1 - min)) min max w.repo);
    release = λ port w n. releases port n w.repo;
    create_ok = λ st w w' e. rw (ap inner e) at (creates st w.repo);
    create_err = λ st x w w' e. rw (ap inner e) at (creates st w.repo);
    k8s_create = λ r w n. refl;
    k8s_delete = λ ns pod svc w n. refl;
    k8s_ip = λ node w n. refl;
    clock = λ w n. refl;
    nano = λ w n. refl;
    entropy = λ w n. refl;
  }
