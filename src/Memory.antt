-- ===== src/Memory.antt =====
-- The service over the in-memory repository and the simulated cluster, as internal/stack/factory.go
-- builds it when both mocks are configured. The world holds both, and the streams of what the clock
-- and the random generators return, with the number of values taken so far.
pub mod Laws
pub mod History
pub mod Deletion
use container_provisioner_k.Base.{
  ℕ, suc, ◌+◌, ◌-◌, ◌%◌, String, Bool, true, Option, none, some, List, [],
}
use container_provisioner_k.Base.Dict.{Dict}
use container_provisioner_k.Errors.{Result, ok, err}
use container_provisioner_k.Op.{Op}
use container_provisioner_k.Config.{StackConfig}
use container_provisioner_k.Models.{Time}
use container_provisioner_k.Pod.{KubeLibrary}
use container_provisioner_k.Repository
use container_provisioner_k.Repository.{InMemoryRepository}
use container_provisioner_k.Kubernetes
use container_provisioner_k.Kubernetes.{MockKubernetesClient}
use container_provisioner_k.Service.{Service, RepositoryClientApi, KubernetesClientApi}

pub record World : Type 0 where
  pub repo : InMemoryRepository
  pub cluster : MockKubernetesClient
  pub times : ℕ → Time
  pub draws : ℕ → ℕ
  pub bytes : ℕ → Option (List ℕ)
  pub taken : ℕ

-- A call of the repository or of the cluster, which leaves the rest of the world alone.
abbrev pub on_repo :
    {A : Type 0} → (InMemoryRepository → Result A × InMemoryRepository) → Op World A
on_repo f w = let (r, repo) = f w.repo in (r, record w { repo = repo })

abbrev pub on_cluster :
    {A : Type 0} → (MockKubernetesClient → Result A × MockKubernetesClient) → Op World A
on_cluster f w = let (r, cluster) = f w.cluster in (r, record w { cluster = cluster })

-- A call that reads the cluster.
abbrev pub reading : {A : Type 0} → (MockKubernetesClient → A) → Op World A
reading f w = (ok (f w.cluster), w)

-- The world after one more value has been taken from the streams.
abbrev pub later : World → World
later w = record w { taken = suc w.taken }

abbrev pub repository : RepositoryClientApi World
repository = record {
  create = λ st. on_repo (Repository.create st);
  get = λ id. on_repo (Repository.get id);
  delete = λ id. on_repo (Repository.delete id);
  list_all = on_repo Repository.list_all;
  reserve_node_port = λ min max w.
      on_repo (Repository.reserve_node_port (w.draws w.taken % (max + 1 - min)) min max) (later w);
  release_node_port = λ port. on_repo (Repository.release_node_port port);
  used_node_port_count = on_repo Repository.used_node_port_count;
  update_status = λ id status node w.
      on_repo (Repository.update_status (w.times w.taken) id status node) (later w);
  create_batch_delete_job = λ job. on_repo (Repository.create_batch_delete_job job);
  update_batch_delete_job = λ job. on_repo (Repository.update_batch_delete_job job);
  get_batch_delete_job = λ id. on_repo (Repository.get_batch_delete_job id);
}

abbrev pub cluster_client : KubernetesClientApi World
cluster_client = record {
  create_pod_and_service = λ req w.
      on_cluster
        (Kubernetes.create_pod_and_service (w.times w.taken)
          (Kubernetes.intn (w.draws w.taken) w.cluster) req)
        (later w);
  delete_pod_and_service = λ ns pod svc. on_cluster (Kubernetes.delete_pod_and_service ns pod svc);
  get_pod_status = λ ns pod w. (Kubernetes.get_pod_status ns pod w.cluster, w);
  list_pods = λ ns. reading (λ m. Kubernetes.list_pods ns m.pods);
  list_pods_with_creation = λ ns. reading (λ m. Kubernetes.list_pods_with_creation ns m.pods []);
  list_services = λ ns. reading (λ m. Kubernetes.list_services ns m.services);
  node_exists = λ id. reading (Kubernetes.node_exists id);
  has_ingress_network_policy = reading (λ m. true);
  get_node_public_ip = λ id. reading (Kubernetes.get_node_public_ip id);
  count_schedulable_nodes = reading (λ m. Kubernetes.count_schedulable_nodes m.nodes);
}

abbrev pub memory_service : {Q : Type 0} → StackConfig → KubeLibrary Q → Service World Q
memory_service cfg lib = record {
  cfg = cfg;
  repo = repository;
  k8s = cluster_client;
  validator = lib;
  now = λ w. (w.times w.taken, later w);
  unix_nano = λ w. (w.times w.taken, later w);
  random_bytes = λ w. (w.bytes w.taken, later w);
}
