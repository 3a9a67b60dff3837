-- ===== src/Repository/Cases.antt =====
-- One rule for each method of the in-memory repository that writes: a property of its outcome holds
-- if it holds where the method refuses and where it writes.
use container_provisioner_k.Base.{
  ℕ, ◌+◌, ◌-◌, String, true, none, some, if◌then◌else◌, ◌==◌, nat_eq, string_eq, ◌≡◌, ◌≢◌, ◌<◌, ◌≤◌,
  ◌↔◌, eq_iff, arith, Bool-cases, inl, inr, Option, Option-cases, length,
}
use container_provisioner_k.Base.Dict.{lookup, insert, erase}
use container_provisioner_k.Errors.{
  Error, Result, ok, err, sentinel, not_found, no_available_node_port,
}
use container_provisioner_k.Models.{Time, Status, Stack}
use container_provisioner_k.Repository
use container_provisioner_k.Repository.{InMemoryRepository, is_reserved, probe}

pub create_cases :
    (P : Result (Unit {0}) × InMemoryRepository → Type 0) (st : Stack) (r : InMemoryRepository)
    → ((e : Error) → P (err e, r))
    → (lookup st.stack_id r.stacks ≡ none
        → Repository.all_reserved r.ports st.ports ≡ true
        → P (
          ok tt,
          record r {
            stacks = insert st.stack_id st r.stacks;
            ports = Repository.claim_ports st.stack_id st.ports r.ports;
          },
        ))
    → P (Repository.create st r)
unfolding Repository.create
create_cases P st r refused stored = elim (Option-cases (lookup st.stack_id r.stacks)) [
  | inr (x, e) ↦ rw (e, Repository.create) (refused _)
  | inl e ↦ elim (Bool-cases (length st.ports == 0)) [
    | inl z ↦ rw (e, z, Repository.create) (refused _)
    | inr z ↦ elim (Bool-cases (Repository.all_reserved r.ports st.ports)) [
      | inl a ↦ rw (e, z, a, Repository.create) (stored e a)
      | inr a ↦ rw (e, z, a, Repository.create) (refused _)
    ]
  ]
]

pub delete_cases :
    (P : Result (Option Stack) × InMemoryRepository → Type 0) (sid : String)
    (r : InMemoryRepository)
    → (lookup sid r.stacks ≡ none → P (ok none, r))
    → ((st : Stack)
        → lookup sid r.stacks ≡ some st
        → P (
          ok (some st),
          record r { stacks = erase sid r.stacks; ports = Repository.drop_ports st.ports r.ports },
        ))
    → P (Repository.delete sid r)
unfolding Repository.delete
delete_cases P sid r absent removed = elim (Option-cases (lookup sid r.stacks)) [
  | inl e ↦ rw (e, Repository.delete) (absent e)
  | inr (st, e) ↦ rw (e, Repository.delete) (removed st e)
]

pub reserve_cases :
    (P : Result ℕ × InMemoryRepository → Type 0) (draw min max : ℕ) (r : InMemoryRepository)
    → (max < min → P (err (sentinel no_available_node_port), r))
    → (min ≤ max
        → probe min (max + 1 - min) (min + draw) r.ports (max + 1 - min) 0 ≡ none
        → P (err (sentinel no_available_node_port), r))
    → ((port : ℕ)
        → min ≤ max
        → probe min (max + 1 - min) (min + draw) r.ports (max + 1 - min) 0 ≡ some port
        → P (ok port, record r { ports = insert port "" r.ports }))
    → P (Repository.reserve_node_port draw min max r)
unfolding Repository.reserve_node_port
reserve_cases P draw min max r empty full found = elim (Bool-cases (max + 1 - min == 0)) [
  | inl z ↦ rw (z, Repository.reserve_node_port) (empty (ground arith))
  | inr z ↦ elim (Option-cases (probe min (max + 1 - min) (min + draw) r.ports (max + 1 - min) 0)) [
    | inl e ↦ rw (z, e, Repository.reserve_node_port) (full (ground arith) e)
    | inr (port, e) ↦ rw (z, e, Repository.reserve_node_port) (found port (ground arith) e)
  ]
]

is_reserved_iff : (o : Option String) → (is_reserved o ≡ true) ↔ (o ≡ some "")
is_reserved_iff none = ground arith
is_reserved_iff (some owner) = ground (arith, eq_iff owner "")

pub release_cases :
    (P : Result (Unit {0}) × InMemoryRepository → Type 0) (port : ℕ) (r : InMemoryRepository)
    → (lookup port r.ports ≢ some "" → P (ok tt, r))
    → (lookup port r.ports ≡ some "" → P (ok tt, record r { ports = erase port r.ports }))
    → P (Repository.release_node_port port r)
unfolding Repository.release_node_port
release_cases P port r kept freed = elim (Bool-cases (is_reserved (lookup port r.ports))) [
  | inl e ↦
      rw (e, Repository.release_node_port) (freed ((is_reserved_iff (lookup port r.ports)).0 e))
  | inr e ↦
      rw (e, Repository.release_node_port)
        (kept (λ h. cc (e, (is_reserved_iff (lookup port r.ports)).1 h)))
]

pub update_cases :
    (P : Result (Unit {0}) × InMemoryRepository → Type 0) (now : Time) (sid : String)
    (status : Status) (node_id : String) (r : InMemoryRepository)
    → (lookup sid r.stacks ≡ none → P (err (sentinel not_found), r))
    → ((st : Stack)
        → lookup sid r.stacks ≡ some st
        → P (
          ok tt,
          record r {
            stacks =
                insert sid
                  (record st {
                    status = status;
                    node_id = if node_id == "" then st.node_id else node_id;
                    updated_at = now;
                  })
                  r.stacks;
          },
        ))
    → P (Repository.update_status now sid status node_id r)
unfolding Repository.update_status
update_cases P now sid status node_id r absent updated = elim (Option-cases (lookup sid r.stacks)) [
  | inl e ↦ rw (e, Repository.update_status) (absent e)
  | inr (st, e) ↦ rw (e, Repository.update_status) (updated st e)
]
