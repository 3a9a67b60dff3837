-- ===== src/Pod.antt =====
-- The parts of k8s.io/api/core/v1 that internal/stack/validator.go reads or writes, and the library
-- functions that it calls. A field that the validator neither reads nor writes is carried through by
-- the source and is left out here. `Q` is the library's Quantity.
use container_provisioner_k.Base.{String, Bool, Option, List}
use container_provisioner_k.Base.Int.{ℤ}
use container_provisioner_k.Base.Dict.{Dict}

pub record SecurityContext : Type 0 where
  pub privileged : Option Bool
  pub allow_privilege_escalation : Option Bool
  pub seccomp_profile : Option String

pub record PodSecurityContext : Type 0 where
  pub seccomp_profile : Option String

pub record ContainerPort : Type 0 where
  pub container_port : ℤ
  pub host_port : ℤ
  pub host_ip : String
  pub protocol : String

pub record ResourceRequirements (Q : Type 0) : Type 0 where
  pub requests : Dict String Q
  pub limits : Dict String Q

pub record Container (Q : Type 0) : Type 0 where
  pub name : String
  pub image : String
  pub security_context : Option SecurityContext
  pub ports : List ContainerPort
  pub resources : ResourceRequirements Q

-- A source of a projected volume: whether its serviceAccountToken is set.
pub record VolumeProjection : Type 0 where
  pub service_account_token : Option String

pub record Volume : Type 0 where
  pub host_path : Option String
  pub projected : Option (List VolumeProjection)

pub record Pod (Q : Type 0) : Type 0 where
  pub kind : String
  pub host_network : Bool
  pub host_pid : Bool
  pub host_ipc : Bool
  pub security_context : Option PodSecurityContext
  pub service_account_name : String
  pub deprecated_service_account : String
  pub node_name : String
  pub runtime_class_name : Option String
  pub ephemeral_containers : List String
  pub volumes : List Volume
  pub init_containers : List (Container Q)
  pub containers : List (Container Q)
  pub restart_policy : String
  pub automount_service_account_token : Option Bool
  pub enable_service_links : Option Bool

-- sigs.k8s.io/yaml and k8s.io/apimachinery/pkg/api/resource.
pub record KubeLibrary (Q : Type 0) : Type 0 where
  pub unmarshal : String → Option (Pod Q)
  pub marshal : Pod Q → Option String
  pub milli_value : Q → ℤ
  pub value : Q → ℤ
  pub new_milli_quantity : ℤ → Q
  pub new_quantity : ℤ → Q
