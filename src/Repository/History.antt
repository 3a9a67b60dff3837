-- ===== src/Repository/History.antt =====
-- Histories of the in-memory repository: any sequence of calls, by any number of clients, each under
-- the lock. What the environment draws and the clock reads are part of the calls.
use container_provisioner_k.Base.{
  ℕ, String, some, List, [], ◌∷◌, ◌≡◌, ◌≢◌, true, arith, nat_eq, string_eq,
}
use container_provisioner_k.Base.Dict.{lookup}
use container_provisioner_k.Models.{Time, Status, Stack, BatchDeleteJob}
use container_provisioner_k.Repository
use container_provisioner_k.Repository.{InMemoryRepository}
use container_provisioner_k.Repository.Ports.{has_port}
use container_provisioner_k.Repository.Invariant.{
  IsConsistent, create-IsConsistent, delete-IsConsistent, reserve-IsConsistent,
  release-IsConsistent, update_status-IsConsistent, empty-IsConsistent, jobs-IsConsistent,
}

pub data Call : Type 0 where
  create : (st : Stack) → st.stack_id ≢ "" → Call
  delete : String → Call
  reserve : ℕ → ℕ → ℕ → Call
  release : ℕ → Call
  update_status : Time → String → Status → String → Call
  create_job update_job : BatchDeleteJob → Call

unfoldable pub step : InMemoryRepository → Call → InMemoryRepository
step r (create st h) = (Repository.create st r).1
step r (delete sid) = (Repository.delete sid r).1
step r (reserve draw min max) = (Repository.reserve_node_port draw min max r).1
step r (release port) = (Repository.release_node_port port r).1
step r (update_status now sid status node) = (Repository.update_status now sid status node r).1
step r (create_job job) = (Repository.create_batch_delete_job job r).1
step r (update_job job) = (Repository.update_batch_delete_job job r).1

unfoldable pub run : InMemoryRepository → List Call → InMemoryRepository
unfolding step
run r [] = r
run r (c ∷ cs) = run (step r c) cs

step-IsConsistent : {r : InMemoryRepository} (c : Call) → IsConsistent r → IsConsistent (step r c)
unfolding step
step-IsConsistent (create st h) v = create-IsConsistent v st h
step-IsConsistent (delete sid) v = delete-IsConsistent v sid
step-IsConsistent (reserve draw min max) v = reserve-IsConsistent v draw min max
step-IsConsistent (release port) v = release-IsConsistent v port
step-IsConsistent (update_status now sid status node) v =
    update_status-IsConsistent v now sid status node
step-IsConsistent (create_job job) v = (jobs-IsConsistent v job).0
step-IsConsistent (update_job job) v = (jobs-IsConsistent v job).1

-- Every sequence of calls, in any order and with any outcome, leads from a consistent repository to
-- a consistent one; only the stacks that are created must have a non-empty id.
pub run-IsConsistent :
    (r : InMemoryRepository) (cs : List Call) → IsConsistent r → IsConsistent (run r cs)
unfolding run
run-IsConsistent r [] v = v
run-IsConsistent r (c ∷ cs) v = run-IsConsistent (step r c) cs (step-IsConsistent c v)

-- After any sequence of calls on a new repository, in which stacks are only created under ids that
-- are not empty, two stored stacks that are mapped to one node port are the same entry: no node port
-- is shared.
pub run-exclusive :
    (cs : List Call) (sid tid : String) (s t : Stack) (n : ℕ)
    → lookup sid (run Repository.empty_repository cs).stacks ≡ some s
    → lookup tid (run Repository.empty_repository cs).stacks ≡ some t
    → has_port n s.ports ≡ true
    → has_port n t.ports ≡ true
    → sid ≡ tid
run-exclusive cs sid tid s t n p q h k =
    let v = run-IsConsistent Repository.empty_repository cs empty-IsConsistent in
    ground (arith, v.owned sid s n p h, v.owned tid t n q k)
