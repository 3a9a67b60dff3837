-- ===== src/Models.antt =====
-- internal/stack/models.go: the values that the service, its repository and its clients exchange.
-- A time.Time is the number of nanoseconds since the zero Time, which is 0; node ports are natural
-- numbers, since the configuration keeps them between 1 and 65535. Status and JobStatus are strings in Go:
-- `other` holds a string that is none of the declared constants.
use container_provisioner_k.Base.{ℕ, String, Option, List}
use container_provisioner_k.Base.Int.{ℤ}
use container_provisioner_k.Base.Dict.{Dict}

abbrev pub Time : Type 0
Time = ℕ

pub data Status : Type 0 where
  creating running stopped failed node_deleted : Status
  other : String → Status

pub record PortSpec : Type 0 where
  pub container_port : ℤ
  pub protocol : String

pub record PortMapping : Type 0 where
  pub container_port : ℤ
  pub protocol : String
  pub node_port : ℕ

pub record Stack : Type 0 where
  pub stack_id : String
  pub pod_id : String
  pub namespace : String
  pub node_id : String
  pub node_public_ip : Option String
  pub pod_spec_yaml : String
  pub target_ports : List PortSpec
  pub ports : List PortMapping
  pub service_name : String
  pub status : Status
  pub ttl_expires_at : Time
  pub created_at : Time
  pub updated_at : Time
  pub requested_milli : ℤ
  pub requested_bytes : ℤ

pub record CreateInput : Type 0 where
  pub pod_spec_yml : String
  pub target_ports : List PortSpec

pub data JobStatus : Type 0 where
  queued running completed failed : JobStatus
  other : String → JobStatus

pub record JobError : Type 0 where
  pub stack_id : String
  pub error : String

pub record BatchDeleteJob : Type 0 where
  pub job_id : String
  pub status : JobStatus
  pub total : ℕ
  pub deleted : ℕ
  pub not_found : ℕ
  pub failed : ℕ
  pub errors : List JobError
  pub created_at : Time
  pub updated_at : Time

pub record Stats : Type 0 where
  pub total_stacks : ℕ
  pub active_stacks : ℕ
  pub node_distribution : Dict String ℕ
  pub used_node_ports : ℕ
  pub reserved_cpu_milli : ℤ
  pub reserved_memory_bytes : ℤ

pub record StackStatusSummary : Type 0 where
  pub stack_id : String
  pub status : Status
  pub ttl : Time
  pub target_ports : List PortSpec
  pub ports : List PortMapping
  pub node_public_ip : Option String
