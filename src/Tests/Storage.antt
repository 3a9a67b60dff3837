-- ===== src/Tests/Storage.antt =====
-- Runs of the in-memory repository.
use container_provisioner_k.Base.{
  map, ◌≡◌, ◌≢◌, refl, some, [], ◌∷◌, List, inr, arith, nat_eq, string_eq,
}
use container_provisioner_k.Base.Dict.{lookup, insert}
use mathlib.Core.List.{Perm}
use container_provisioner_k.Errors.{ok}
use container_provisioner_k.Models.{Stack}
use container_provisioner_k.Repository
use container_provisioner_k.Repository.{InMemoryRepository, empty_repository}
use container_provisioner_k.Repository.Reserve.{Reserved, reserve_node_port-Reserved}
use container_provisioner_k.Repository.Invariant.{IsConsistent, empty-IsConsistent}
use container_provisioner_k.Repository.History.{Call, run, run-IsConsistent, run-exclusive}
use container_provisioner_k.Repository.Listing.{IsSorted, list_all-IsSorted}
use container_provisioner_k.Tests.Inputs.{stack}

pub stack_id-nonempty : stack.stack_id ≢ ""
stack_id-nonempty h = absurd (ground (arith, (string_eq.beq_iff "stack-1" "").1 h))

-- Two ports are reserved, the first is taken by a stack and the second is given back.
abbrev pub calls : List Call
calls =
    Call.reserve 0 31001 31004
    ∷ Call.reserve 0 31001 31004
    ∷ Call.create stack stack_id-nonempty
    ∷ Call.release 31002
    ∷ []

pub stored : lookup "stack-1" (run empty_repository calls).stacks ≡ some stack
unfolding run lookup Repository.release_node_port Repository.create Repository.reserve_node_port
    insert Repository.all_reserved Repository.claim_ports
stored = refl

run-exclusive_example : stack.stack_id ≡ "stack-1"
run-exclusive_example =
    run-exclusive calls "stack-1" "stack-1" stack stack 31001 stored stored refl refl

run-IsConsistent_example : IsConsistent (run empty_repository calls)
run-IsConsistent_example = run-IsConsistent empty_repository calls empty-IsConsistent

reserve_node_port-Reserved_example :
    Reserved 31001 31004 empty_repository
      (Repository.reserve_node_port 3 31001 31004 empty_repository)
reserve_node_port-Reserved_example =
    reserve_node_port-Reserved 3 31001 31004 empty_repository (inr (omega arith))

list_all-IsSorted_example :
    (ss : List Stack) × (Repository.list_all (run empty_repository calls)
      ≡ (ok ss, run empty_repository calls))
    × IsSorted ss
    × Perm ss (map (λ (id, st). st) (run empty_repository calls).stacks)
list_all-IsSorted_example = list_all-IsSorted (run empty_repository calls)
