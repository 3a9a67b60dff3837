-- ===== src/Config.antt =====
-- internal/config/config.go: the configuration of the service. A time.Duration is a number of
-- nanoseconds.
pub mod Load
pub mod Variable
pub mod Reading
pub mod Sound
use container_provisioner_k.Base.{ℕ, String, Bool}
use container_provisioner_k.Base.Int.{ℤ}

abbrev pub Duration : Type 0
Duration = ℤ

-- A float64: a finite one is counted in units of 2 ^ -1074, of which each is a multiple. The two zeros
-- are one here; the program only compares the number with 0.
pub data Float64 : Type 0 where
  finite : ℤ → Float64
  plus_infinity minus_infinity nan : Float64

pub record LoggingConfig : Type 0 where
  pub dir : String
  pub file_prefix : String
  pub max_body_bytes : ℤ

pub record ApiKeyConfig : Type 0 where
  pub enabled : Bool
  pub value : String

pub record LeaderElectionConfig : Type 0 where
  pub enabled : Bool
  pub namespace : String
  pub lease_name : String
  pub lease_duration : Duration
  pub renew_deadline : Duration
  pub retry_period : Duration

pub record StackConfig : Type 0 where
  pub namespace : String
  pub stack_ttl : Duration
  pub scheduler_interval : Duration
  pub node_port_min : ℤ
  pub node_port_max : ℤ
  pub port_lock_ttl : Duration
  pub leader_election : LeaderElectionConfig
  pub dynamo_table_name : String
  pub aws_region : String
  pub aws_endpoint : String
  pub dynamo_consistent_read : Bool
  pub use_mock_repository : Bool
  pub kube_config_path : String
  pub kube_context : String
  pub k8s_qps : Float64
  pub k8s_burst : ℤ
  pub scheduling_timeout : Duration
  pub use_mock_kubernetes : Bool
  pub require_ingress_np : Bool
  pub stack_node_role : String

pub record Config : Type 0 where
  pub app_env : String
  pub http_addr : String
  pub grpc_addr : String
  pub grpc_enabled : Bool
  pub grpc_reflection_enabled : Bool
  pub shutdown_timeout : Duration
  pub logging : LoggingConfig
  pub api_key : ApiKeyConfig
  pub stack : StackConfig
