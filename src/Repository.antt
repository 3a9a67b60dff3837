-- ===== src/Repository.antt =====
-- internal/stack/dynamodb_mock.go: the repository that keeps stacks, node ports and batch jobs in
-- memory. Every method holds the lock for its whole body, so it is one atomic step. `draw` stands
-- for the number that `r.rand.Intn(total)` returns, and `now` for time.Now().
pub mod Cases
pub mod Ports
pub mod History
pub mod Listing
pub mod Reserve
pub mod Invariant
use container_provisioner_k.Base.{
  ℕ, zero, suc, ◌+◌, ◌-◌, ◌%◌, String, Bool, true, false, Option, none, some, List, [], ◌∷◌, map,
  if◌then◌else◌, ltb, ◌==◌, nat_eq, string_eq, length,
}
use container_provisioner_k.Base.Dict.{Dict, lookup, insert, erase}
use container_provisioner_k.Errors.{
  Result, ok, err, sentinel, plain, not_found, no_available_node_port,
}
use container_provisioner_k.Models.{Time, Status, PortMapping, Stack, BatchDeleteJob}

pub record InMemoryRepository : Type 0 where
  pub stacks : Dict String Stack
  pub ports : Dict ℕ String
  pub jobs : Dict String BatchDeleteJob

abbrev pub empty_repository : InMemoryRepository
empty_repository = record { stacks = []; ports = []; jobs = [] }

abbrev pub exists {ℓ} : {A : Type ℓ} → Option A → Bool
exists none = false
exists (some _) = true

-- The guard of the first loop of Create: the port is reserved and not yet owned by a stack.
abbrev pub is_reserved : Option String → Bool
is_reserved none = false
is_reserved (some owner) = owner == ""

unfoldable pub all_reserved : Dict ℕ String → List PortMapping → Bool
all_reserved ports [] = true
all_reserved ports (p ∷ ps) =
    if is_reserved (lookup p.node_port ports) then all_reserved ports ps else false

unfoldable pub claim_ports : String → List PortMapping → Dict ℕ String → Dict ℕ String
claim_ports stack_id [] ports = ports
claim_ports stack_id (p ∷ ps) ports = claim_ports stack_id ps (insert p.node_port stack_id ports)

unfoldable pub drop_ports : List PortMapping → Dict ℕ String → Dict ℕ String
drop_ports [] ports = ports
drop_ports (p ∷ ps) ports = drop_ports ps (erase p.node_port ports)

unfoldable pub create : Stack → InMemoryRepository → Result (Unit {0}) × InMemoryRepository
create st r =
    if exists (lookup st.stack_id r.stacks)
    then (err (plain "stack id already exists"), r)
    else if length st.ports == 0
    then (err (sentinel no_available_node_port), r)
    else if all_reserved r.ports st.ports
    then (
      ok tt,
      record r {
        stacks = insert st.stack_id st r.stacks;
        ports = claim_ports st.stack_id st.ports r.ports;
      },
    )
    else (err (sentinel no_available_node_port), r)

unfoldable pub get : String → InMemoryRepository → Result (Option Stack) × InMemoryRepository
get stack_id r = (ok (lookup stack_id r.stacks), r)

unfoldable pub delete : String → InMemoryRepository → Result (Option Stack) × InMemoryRepository
delete stack_id r = elim (lookup stack_id r.stacks) [
  | none ↦ (ok none, r)
  | some st ↦ (
    ok (some st),
    record r { stacks = erase stack_id r.stacks; ports = drop_ports st.ports r.ports },
  )
]

-- sort.Slice by CreatedAt, as an insertion sort; Go leaves the order of equal times open.
unfoldable pub insert_by_creation : Stack → List Stack → List Stack
insert_by_creation st [] = st ∷ []
insert_by_creation st (s ∷ ss) =
    let rest = insert_by_creation st ss in
    if ltb s.created_at st.created_at then s ∷ rest else st ∷ s ∷ ss

unfoldable pub sort_by_creation : List Stack → List Stack
unfolding insert_by_creation
sort_by_creation [] = []
sort_by_creation (s ∷ ss) = insert_by_creation s (sort_by_creation ss)

abbrev pub stored : Dict String Stack → List Stack
stored = map (λ entry. entry.1)

unfoldable pub list_all : InMemoryRepository → Result (List Stack) × InMemoryRepository
unfolding sort_by_creation
list_all r = (ok (sort_by_creation (stored r.stacks)), r)

-- The loop of ReserveNodePort from round `i` on, with `rounds` rounds left.
unfoldable pub probe : ℕ → ℕ → ℕ → Dict ℕ String → ℕ → ℕ → Option ℕ
probe min total start ports zero i = none
probe min total start ports (suc rounds) i =
    let port = min + (start - min + i) % total in
    let rest = probe min total start ports rounds (i + 1) in
    if exists (lookup port ports) then rest else some port

unfoldable pub reserve_node_port : ℕ → ℕ → ℕ → InMemoryRepository → Result ℕ × InMemoryRepository
unfolding probe
reserve_node_port draw min max r =
    let total = max + 1 - min in
    if total == 0
    then (err (sentinel no_available_node_port), r)
    else elim (probe min total (min + draw) r.ports total 0) [
      | none ↦ (err (sentinel no_available_node_port), r)
      | some port ↦ (ok port, record r { ports = insert port "" r.ports })
    ]

unfoldable pub release_node_port : ℕ → InMemoryRepository → Result (Unit {0}) × InMemoryRepository
release_node_port port r =
    if is_reserved (lookup port r.ports)
    then (ok tt, record r { ports = erase port r.ports })
    else (ok tt, r)

unfoldable pub used_node_port_count : InMemoryRepository → Result ℕ × InMemoryRepository
used_node_port_count r = (ok (length r.ports), r)

unfoldable pub update_status :
    Time → String → Status → String → InMemoryRepository → Result (Unit {0}) × InMemoryRepository
update_status now stack_id status node_id r = elim (lookup stack_id r.stacks) [
  | none ↦ (err (sentinel not_found), r)
  | some st ↦ (
    ok tt,
    record r {
      stacks =
          insert stack_id
            (record st {
              status = status;
              node_id = if node_id == "" then st.node_id else node_id;
              updated_at = now;
            })
            r.stacks;
    },
  )
]

unfoldable pub create_batch_delete_job :
    BatchDeleteJob → InMemoryRepository → Result (Unit {0}) × InMemoryRepository
create_batch_delete_job job r =
    if exists (lookup job.job_id r.jobs)
    then (err (plain "job id already exists"), r)
    else (ok tt, record r { jobs = insert job.job_id job r.jobs })

unfoldable pub update_batch_delete_job :
    BatchDeleteJob → InMemoryRepository → Result (Unit {0}) × InMemoryRepository
update_batch_delete_job job r =
    if exists (lookup job.job_id r.jobs)
    then (ok tt, record r { jobs = insert job.job_id job r.jobs })
    else (err (sentinel not_found), r)

unfoldable pub get_batch_delete_job :
    String → InMemoryRepository → Result (Option BatchDeleteJob) × InMemoryRepository
get_batch_delete_job job_id r = (ok (lookup job_id r.jobs), r)
