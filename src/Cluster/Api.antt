-- ===== src/Cluster/Api.antt =====
-- The parts of the Kubernetes API that internal/stack/kubernetes.go reads, writes and calls: a
-- parameter, as are the yaml library and the waiting of client-go. `S` is the part of a pod's spec that
-- the client passes through.
use container_provisioner_k.Base.{String, Bool, Option, List}
use container_provisioner_k.Base.Int.{ℤ}
use container_provisioner_k.Base.Dict.{Dict}
use container_provisioner_k.Config.{Duration}
use container_provisioner_k.Errors.{Error}
use container_provisioner_k.Op.{Op}
use container_provisioner_k.Models.{Time}

-- A pod as it is sent. `node_selector` is empty where it is nil.
pub record PodObject (S : Type 0) : Type 0 where
  pub api_version : String
  pub kind : String
  pub name : String
  pub namespace : String
  pub labels : Dict String String
  pub annotations : Dict String String
  pub node_selector : Dict String String
  pub spec : S

pub record ServicePort : Type 0 where
  pub name : String
  pub protocol : String
  pub port : ℤ
  pub target_port : ℤ
  pub node_port : ℤ

pub record ServiceObject : Type 0 where
  pub name : String
  pub namespace : String
  pub labels : Dict String String
  pub service_type : String
  pub selector : Dict String String
  pub ports : List ServicePort

-- The condition of a pod or of a node.
pub record Condition : Type 0 where
  pub condition_type : String
  pub status : String
  pub reason : String

-- A pod as it is read.
pub record PodView : Type 0 where
  pub name : String
  pub labels : Dict String String
  pub creation : Time
  pub node_name : String
  pub phase : String
  pub reason : String
  pub conditions : List Condition

pub record NodeView : Type 0 where
  pub unschedulable : Bool
  pub conditions : List Condition
  -- The addresses, each with its type.
  pub addresses : List (String × String)

pub record ClusterApi (W S : Type 0) : Type 0 where
  pub get_namespace : String → Op W (Unit {0})
  pub create_namespace : String → Op W (Unit {0})
  pub create_pod : String → PodObject S → Op W (Unit {0})
  pub get_pod : String → String → Op W PodView
  pub delete_pod : String → String → Op W (Unit {0})
  pub list_pods : String → Op W (List PodView)
  pub create_service : String → ServiceObject → Op W (Unit {0})
  pub delete_service : String → String → Op W (Unit {0})
  -- The names of the services.
  pub list_services : String → Op W (List String)
  pub get_node : String → Op W NodeView
  pub list_nodes : String → Op W (List NodeView)
  -- The policy types of each network policy.
  pub list_network_policies : Op W (List (List String))
  -- apierrors.IsNotFound and apierrors.IsAlreadyExists
  pub is_not_found : Error → Bool
  pub is_already_exists : Error → Bool
  -- sigsyaml.Unmarshal, with the error that it returns
  pub unmarshal : String → Op W (PodObject S)
  -- Waits for a delay, or fails with the error of the context.
  pub pause : Duration → Op W (Unit {0})
  -- wait.PollUntilContextCancel every second, from now on, under the timeout if there is one
  pub poll : Option Duration → Op W Bool → Op W (Unit {0})
