-- ===== src/Memory/History.antt =====
-- Histories of the service over the in-memory repository and the simulated cluster: requests, the
-- goroutines of batch jobs and rounds of the scheduler, one after the other.
use container_provisioner_k.Base.{
  ℕ, String, some, List, [], ◌∷◌, ◌≡◌, true, arith, nat_eq, string_eq,
}
use container_provisioner_k.Base.Dict.{lookup}
use container_provisioner_k.Config.{StackConfig}
use container_provisioner_k.Models.{Stack, CreateInput}
use container_provisioner_k.Pod.{KubeLibrary}
use container_provisioner_k.Repository
use container_provisioner_k.Repository.Ports.{has_port}
use container_provisioner_k.Repository.Invariant.{
  IsConsistent, create-IsConsistent, delete-IsConsistent, reserve-IsConsistent,
  release-IsConsistent, update_status-IsConsistent, jobs-IsConsistent,
}
use container_provisioner_k.Service.Upholds.{Upholds}
use container_provisioner_k.Service.Upholds.Query.{
  get_details-Keeps, get_status_summary-Keeps, get_status-Keeps, delete-Keeps, list_all-Keeps,
  stats-Keeps,
}
use container_provisioner_k.Service.Upholds.Change.{
  create-Keeps, start_batch_delete-Keeps, run_batch_delete-Keeps,
}
use container_provisioner_k.Service.Upholds.Clean.{cleanup-Keeps}
use container_provisioner_k.Service.Provision
use container_provisioner_k.Service.Query
use container_provisioner_k.Service.Batch
use container_provisioner_k.Service.Cleanup.{cleanup_expired_and_orphaned}
use container_provisioner_k.Memory.{World, memory_service}

abbrev pub RepoIsConsistent : World → Type 0
RepoIsConsistent w = IsConsistent w.repo

pub data Request : Type 0 where
  create : CreateInput → Request
  get_details get_status get_status_summary delete : String → Request
  list_all stats cleanup : Request
  start_batch_delete : List String → Request
  run_batch_delete : String → List String → Request

module _ {Q : Type 0} (cfg : StackConfig) (lib : KubeLibrary Q) where
  memory-Upholds : Upholds (memory_service cfg lib) RepoIsConsistent
  unfolding Repository.get Repository.list_all Repository.used_node_port_count
      Repository.get_batch_delete_job
  memory-Upholds = record {
    create = λ st n. record { after = λ w v. create-IsConsistent v st n };
    get = λ id. record { after = λ w v. v };
    delete = λ id. record { after = λ w v. delete-IsConsistent v id };
    list_all = record { after = λ w v. v };
    reserve = λ min max. record { after = λ w v. reserve-IsConsistent v _ min max };
    release = λ port. record { after = λ w v. release-IsConsistent v port };
    used_count = record { after = λ w v. v };
    update_status =
        λ id status node. record { after = λ w v. update_status-IsConsistent v _ id status node };
    create_job = λ job. record { after = λ w v. (jobs-IsConsistent v job).0 };
    update_job = λ job. record { after = λ w v. (jobs-IsConsistent v job).1 };
    get_job = λ id. record { after = λ w v. v };
    create_pod = λ req. record { after = λ w v. v };
    delete_pod = λ ns pod svc. record { after = λ w v. v };
    pod_status = λ ns pod. record { after = λ w v. v };
    pods = λ ns. record { after = λ w v. v };
    pods_created = λ ns. record { after = λ w v. v };
    services = λ ns. record { after = λ w v. v };
    node_exists = λ id. record { after = λ w v. v };
    public_ip = λ id. record { after = λ w v. v };
    clock = λ w v. v;
    nano = λ w v. v;
    entropy = λ w v. v;
  }

  -- What a request leaves behind, whatever it answers.
  unfoldable pub handle : World → Request → World
  handle w (Request.create input) = (Provision.create (memory_service cfg lib) input w).1
  handle w (Request.get_details id) = (Query.get_details (memory_service cfg lib) id w).1
  handle w (Request.get_status id) = (Query.get_status (memory_service cfg lib) id w).1
  handle w (Request.get_status_summary id) =
      (Query.get_status_summary (memory_service cfg lib) id w).1
  handle w (Request.delete id) = (Query.delete (memory_service cfg lib) id w).1
  handle w Request.list_all = (Query.list_all (memory_service cfg lib) w).1
  handle w Request.stats = (Query.stats (memory_service cfg lib) w).1
  handle w Request.cleanup = (cleanup_expired_and_orphaned (memory_service cfg lib) w).1
  handle w (Request.start_batch_delete ids) =
      (Batch.start_batch_delete (memory_service cfg lib) ids w).1
  handle w (Request.run_batch_delete job ids) =
      (Batch.run_batch_delete (memory_service cfg lib) job ids w).1

  unfoldable pub serve : World → List Request → World
  unfolding handle
  serve w [] = w
  serve w (r ∷ rs) = serve (handle w r) rs

  handle-IsConsistent :
      (w : World) (r : Request) → RepoIsConsistent w → RepoIsConsistent (handle w r)
  unfolding handle
  handle-IsConsistent w (Request.create input) = (create-Keeps memory-Upholds input).after w
  handle-IsConsistent w (Request.get_details id) = (get_details-Keeps memory-Upholds id).after w
  handle-IsConsistent w (Request.get_status id) = (get_status-Keeps memory-Upholds id).after w
  handle-IsConsistent w (Request.get_status_summary id) =
      (get_status_summary-Keeps memory-Upholds id).after w
  handle-IsConsistent w (Request.delete id) = (delete-Keeps memory-Upholds id).after w
  handle-IsConsistent w Request.list_all = (list_all-Keeps memory-Upholds).after w
  handle-IsConsistent w Request.stats = (stats-Keeps memory-Upholds).after w
  handle-IsConsistent w Request.cleanup = (cleanup-Keeps memory-Upholds).after w
  handle-IsConsistent w (Request.start_batch_delete ids) =
      (start_batch_delete-Keeps memory-Upholds ids).after w
  handle-IsConsistent w (Request.run_batch_delete job ids) =
      (run_batch_delete-Keeps memory-Upholds job ids).after w

  -- Whatever requests, batch jobs and cleanups the service runs over the in-memory repository and the
  -- simulated cluster, in whatever order and with whatever outcome, the repository is consistent
  -- afterwards if it was before: each stack is stored under its own id, which is not empty, and owns
  -- its node ports, and each owned port belongs to a stored stack that is mapped to it.
  pub serve-IsConsistent :
      (w : World) (rs : List Request) → RepoIsConsistent w → RepoIsConsistent (serve w rs)
  unfolding serve
  serve-IsConsistent w [] v = v
  serve-IsConsistent w (r ∷ rs) v = serve-IsConsistent (handle w r) rs (handle-IsConsistent w r v)

  -- After any requests, batch jobs and cleanups of the service over the in-memory repository and the
  -- simulated cluster, if the repository was consistent before, two stored stacks that are mapped to
  -- one node port are the same entry.
  pub serve-exclusive :
      (w : World) (rs : List Request) (sid tid : String) (st st' : Stack) (n : ℕ)
      → RepoIsConsistent w
      → lookup sid (serve w rs).repo.stacks ≡ some st
      → lookup tid (serve w rs).repo.stacks ≡ some st'
      → has_port n st.ports ≡ true
      → has_port n st'.ports ≡ true
      → sid ≡ tid
  serve-exclusive w rs sid tid st st' n h p q a b =
      let v = serve-IsConsistent w rs h in
      ground (arith, v.owned sid st n p a, v.owned tid st' n q b)
