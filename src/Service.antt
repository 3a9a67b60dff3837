-- ===== src/Service.antt =====
-- internal/stack/service.go: the service, over the interfaces RepositoryClientAPI (dynamodb_mock.go)
-- and KubernetesClientAPI (kubernetes.go). `W` is the world that their calls read and change. Log
-- lines are left out. The operations are in the modules below.
pub mod Provision
pub mod Ports
pub mod Query
pub mod Batch
pub mod Cleanup
pub mod Upholds
pub mod Schedule
use Prim.Native.String.{◌++◌}
use container_provisioner_k.Base.{ℕ, ◌+◌, ◌-◌, String, Bool, Option, none, some, List}
use container_provisioner_k.Base.Int.{pos_part, neg_part}
use container_provisioner_k.Base.Text.{hex_encode, itoa}
use container_provisioner_k.Config.{Duration, StackConfig}
use container_provisioner_k.Errors.{Result}
use container_provisioner_k.Op.{Op}
use container_provisioner_k.Models.{Time, Status, Stack, BatchDeleteJob}
use container_provisioner_k.Kubernetes.{ProvisionRequest, ProvisionResult, PodInfo}
use container_provisioner_k.Pod.{KubeLibrary}

pub record RepositoryClientApi (W : Type 0) : Type 0 where
  pub create : Stack → Op W (Unit {0})
  pub get : String → Op W (Option Stack)
  pub delete : String → Op W (Option Stack)
  pub list_all : Op W (List Stack)
  pub reserve_node_port : ℕ → ℕ → Op W ℕ
  pub release_node_port : ℕ → Op W (Unit {0})
  pub used_node_port_count : Op W ℕ
  pub update_status : String → Status → String → Op W (Unit {0})
  pub create_batch_delete_job : BatchDeleteJob → Op W (Unit {0})
  pub update_batch_delete_job : BatchDeleteJob → Op W (Unit {0})
  pub get_batch_delete_job : String → Op W (Option BatchDeleteJob)

pub record KubernetesClientApi (W : Type 0) : Type 0 where
  pub create_pod_and_service : ProvisionRequest → Op W ProvisionResult
  pub delete_pod_and_service : String → String → String → Op W (Unit {0})
  pub get_pod_status : String → String → Op W (Status × String)
  pub list_pods : String → Op W (List String)
  pub list_pods_with_creation : String → Op W (List (String × PodInfo))
  pub list_services : String → Op W (List String)
  pub node_exists : String → Op W Bool
  pub has_ingress_network_policy : Op W Bool
  pub get_node_public_ip : String → Op W (Option String)
  pub count_schedulable_nodes : Op W ℕ

-- The service, with the clock (`now`, `unix_nano`) and the eight bytes of crypto/rand, or none where
-- reading them fails.
pub record Service (W Q : Type 0) : Type 0 where
  pub cfg : StackConfig
  pub repo : RepositoryClientApi W
  pub k8s : KubernetesClientApi W
  pub validator : KubeLibrary Q
  pub now : W → Time × W
  pub unix_nano : W → ℕ × W
  pub random_bytes : W → Option (List ℕ) × W

-- t.Add(d); a time before the zero Time is not represented.
abbrev pub add_duration : Time → Duration → Time
add_duration t d = t + pos_part d - neg_part d

module _ {W Q : Type 0} (s : Service W Q) where
  -- newStackID and newJobID, which differ in the prefix
  unfoldable pub new_id : String → W → String × W
  new_id prefix w =
      let (bytes, w') = s.random_bytes w in
      elim bytes [
        | some bs ↦ (prefix ++ hex_encode bs, w')
        | none ↦ let (nano, w'') = s.unix_nano w' in (prefix ++ itoa nano, w'')
      ]

  abbrev pub new_stack_id : W → String × W
  new_stack_id = new_id "stack-"

  abbrev pub new_job_id : W → String × W
  new_job_id = new_id "job-"
