-- ===== src/Tests/Services.antt =====
-- Runs of the service over the in-memory world.
use container_provisioner_k.Repository.Ports.{has_port}
use container_provisioner_k.Memory.Deletion.{delete-gone}
use container_provisioner_k.Base.Int.{ℤ, pos}
use container_provisioner_k.Base.{
  none, true, ℕ, String, ◌≡◌, refl, some, [], ◌∷◌, List, nat_eq, string_eq,
}
use container_provisioner_k.Base.Dict.{lookup, insert}
use container_provisioner_k.Errors.{ok, err, sentinel, not_found}
use container_provisioner_k.Models.{BatchDeleteJob}
use container_provisioner_k.Memory.{World, memory_service}
use container_provisioner_k.Memory.Laws.{memory-PortLaws}
use container_provisioner_k.Memory.History.{
  Request, serve, RepoIsConsistent, serve-IsConsistent, serve-exclusive,
}
use container_provisioner_k.Repository.Invariant.{empty-IsConsistent}
use container_provisioner_k.Repository
use container_provisioner_k.Service.Query
use container_provisioner_k.Repository.{empty_repository}
use container_provisioner_k.Repository.History.{run, run-IsConsistent}
use container_provisioner_k.Tests.Storage.{calls, stored}
use container_provisioner_k.Service.Provision.{create}
use container_provisioner_k.Service.Ports.{PortsSettled, create-PortsSettled}
use container_provisioner_k.Service.Batch.{process_job}
use container_provisioner_k.Service.Batch.Counts.{Finished, process_job-Finished}
use container_provisioner_k.Service.Schedule
use container_provisioner_k.Service.Schedule.{
  Scheduler, Event, done, tick, clean, repeated, before_done, run-repeated,
}
use container_provisioner_k.Service.Query.{add_stacks, empty_stats}
use container_provisioner_k.Service.Query.Totals.{
  add_stacks-totals, count_active, count_on, sum_counts, or_zero,
}
use container_provisioner_k.Tests.Inputs.{library, config, input, world, stack, job}

create-PortsSettled_example :
    PortsSettled
      (memory_service config library)
      (memory-PortLaws config library)
      world
      (create (memory_service config library) input world)
create-PortsSettled_example =
    create-PortsSettled (memory_service config library) (memory-PortLaws config library) input world

abbrev requests : List Request
requests = Request.create input ∷ Request.create input ∷ Request.cleanup ∷ []

serve-IsConsistent_example : RepoIsConsistent (serve config library world requests)
serve-IsConsistent_example = serve-IsConsistent config library world requests empty-IsConsistent

process_job-Finished_example :
    (job' : BatchDeleteJob) × (w' : World) × (process_job
        (memory_service config library)
        ("stack-1" ∷ "stack-2" ∷ [])
        job
        world
      ≡ (ok job', w'))
    × Finished (memory_service config library) ("stack-1" ∷ "stack-2" ∷ []) job job'
process_job-Finished_example =
    process_job-Finished (memory_service config library) ("stack-1" ∷ "stack-2" ∷ []) job world refl
      refl

add_stacks-totals_example :
    ((add_stacks (empty_stats 1) (stack ∷ stack ∷ [])).total_stacks ≡ 2)
    × ((add_stacks (empty_stats 1) (stack ∷ stack ∷ [])).active_stacks
        ≡ count_active (stack ∷ stack ∷ []))
    × ((node : String)
        → or_zero (lookup node (add_stacks (empty_stats 1) (stack ∷ stack ∷ [])).node_distribution)
          ≡ count_on node (stack ∷ stack ∷ []))
    × (sum_counts (add_stacks (empty_stats 1) (stack ∷ stack ∷ [])).node_distribution ≡ 2)
add_stacks-totals_example = add_stacks-totals 1 (stack ∷ stack ∷ [])

-- A world whose repository has stored a stack.
abbrev later_world : World
later_world = record world { repo = run empty_repository calls }

still_stored :
    lookup "stack-1" (serve config library later_world (Request.delete "stack-2" ∷ [])).repo.stacks
    ≡ some stack
unfolding serve lookup Query.delete Repository.get run Repository.release_node_port
    Repository.create Repository.reserve_node_port insert Repository.all_reserved
    Repository.claim_ports
still_stored = refl

serve-exclusive_example : stack.stack_id ≡ "stack-1"
serve-exclusive_example =
    serve-exclusive config library later_world (Request.delete "stack-2" ∷ []) "stack-1" "stack-1"
      stack stack 31001 (run-IsConsistent empty_repository calls empty-IsConsistent) still_stored
      still_stored refl refl

delete-gone_example :
    (w' : World) × (Query.delete (memory_service config library) "stack-1" later_world
      ≡ (ok tt, w'))
    × (Query.get_details (memory_service config library) "stack-1" w'
        ≡ (err (sentinel not_found), w'))
    × ((n : ℕ) → has_port n stack.ports ≡ true → lookup n w'.repo.ports ≡ none)
delete-gone_example = delete-gone config library "stack-1" later_world stack stored

abbrev scheduler : Scheduler World ℤ
scheduler = record { interval = pos 60000000000; service = some (memory_service config library) }

abbrev events : List Event
events = tick ∷ tick ∷ done ∷ tick ∷ []

run-repeated_example :
    Schedule.run (some scheduler) events world
    ≡ repeated 3 (clean (memory_service config library)) world
unfolding before_done
run-repeated_example = run-repeated scheduler (memory_service config library) events world refl refl
