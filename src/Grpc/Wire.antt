-- ===== src/Grpc/Wire.antt =====
-- The messages of internal/grpcserver/server.go and the conversions to and from them.
use container_provisioner_k.Base.{
  String, Option, none, some, List, [], ◌∷◌, map, if◌then◌else◌, ◌==◌, nat_eq,
}
use container_provisioner_k.Base.Int.{ℤ, pos, to_int32}
use container_provisioner_k.Base.Dict.{Dict}
use container_provisioner_k.Models
use container_provisioner_k.Models.{Time}

pub data WireStatus : Type 0 where
  unspecified creating running stopped failed node_deleted : WireStatus

pub data WireJobStatus : Type 0 where
  unspecified queued running completed failed : WireJobStatus

pub record WirePortSpec : Type 0 where
  pub container_port : ℤ
  pub protocol : String

pub record WirePortMapping : Type 0 where
  pub container_port : ℤ
  pub protocol : String
  pub node_port : ℤ

pub record WireStack : Type 0 where
  pub stack_id : String
  pub pod_id : String
  pub namespace : String
  pub node_id : String
  pub node_public_ip : Option String
  pub pod_spec : String
  pub ports : List WirePortMapping
  pub service_name : String
  pub status : WireStatus
  pub ttl_expires_at : Option Time
  pub created_at : Option Time
  pub updated_at : Option Time
  pub requested_cpu_milli : ℤ
  pub requested_memory_bytes : ℤ
  pub target_ports : List WirePortSpec

pub record WireSummary : Type 0 where
  pub stack_id : String
  pub status : WireStatus
  pub ttl : Option Time
  pub ports : List WirePortMapping
  pub node_public_ip : Option String
  pub target_ports : List WirePortSpec

pub record WireStats : Type 0 where
  pub total_stacks : ℤ
  pub active_stacks : ℤ
  pub node_distribution : Dict String ℤ
  pub used_node_ports : ℤ
  pub reserved_cpu_milli : ℤ
  pub reserved_memory_bytes : ℤ

pub record WireJobError : Type 0 where
  pub stack_id : String
  pub error : String

pub record WireJob : Type 0 where
  pub job_id : String
  pub status : WireJobStatus
  pub total : ℤ
  pub deleted : ℤ
  pub not_found : ℤ
  pub failed : ℤ
  pub errors : List WireJobError
  pub created_at : Option Time
  pub updated_at : Option Time

-- tsOrNil
abbrev pub ts_or_nil : Time → Option Time
ts_or_nil t = if t == 0 then none else some t

abbrev pub to_proto_status : Models.Status → WireStatus
to_proto_status Models.Status.creating = WireStatus.creating
to_proto_status Models.Status.running = WireStatus.running
to_proto_status Models.Status.stopped = WireStatus.stopped
to_proto_status Models.Status.failed = WireStatus.failed
to_proto_status Models.Status.node_deleted = WireStatus.node_deleted
to_proto_status (Models.Status.other text) = WireStatus.unspecified

abbrev pub to_proto_job_status : Models.JobStatus → WireJobStatus
to_proto_job_status Models.JobStatus.queued = WireJobStatus.queued
to_proto_job_status Models.JobStatus.running = WireJobStatus.running
to_proto_job_status Models.JobStatus.completed = WireJobStatus.completed
to_proto_job_status Models.JobStatus.failed = WireJobStatus.failed
to_proto_job_status (Models.JobStatus.other text) = WireJobStatus.unspecified

abbrev pub to_proto_port_spec : Models.PortSpec → WirePortSpec
to_proto_port_spec spec = record {
  container_port = to_int32 spec.container_port;
  protocol = spec.protocol;
}

unfoldable pub to_proto_port_specs : List Models.PortSpec → List WirePortSpec
to_proto_port_specs [] = []
to_proto_port_specs (spec ∷ specs) = to_proto_port_spec spec ∷ to_proto_port_specs specs

-- A nil entry is skipped.
unfoldable pub from_proto_port_specs : List (Option WirePortSpec) → List Models.PortSpec
from_proto_port_specs [] = []
from_proto_port_specs (none ∷ specs) = from_proto_port_specs specs
from_proto_port_specs (some spec ∷ specs) =
    record { container_port = spec.container_port; protocol = spec.protocol }
    ∷ from_proto_port_specs specs

abbrev pub to_proto_port_mapping : Models.PortMapping → WirePortMapping
to_proto_port_mapping mapping = record {
  container_port = to_int32 mapping.container_port;
  protocol = mapping.protocol;
  node_port = to_int32 (pos mapping.node_port);
}

unfoldable pub to_proto_port_mappings : List Models.PortMapping → List WirePortMapping
to_proto_port_mappings ms = map to_proto_port_mapping ms

unfoldable pub to_proto_stack : Models.Stack → WireStack
to_proto_stack st = record {
  stack_id = st.stack_id;
  pod_id = st.pod_id;
  namespace = st.namespace;
  node_id = st.node_id;
  node_public_ip = st.node_public_ip;
  pod_spec = st.pod_spec_yaml;
  ports = to_proto_port_mappings st.ports;
  service_name = st.service_name;
  status = to_proto_status st.status;
  ttl_expires_at = ts_or_nil st.ttl_expires_at;
  created_at = ts_or_nil st.created_at;
  updated_at = ts_or_nil st.updated_at;
  requested_cpu_milli = st.requested_milli;
  requested_memory_bytes = st.requested_bytes;
  target_ports = to_proto_port_specs st.target_ports;
}

unfoldable pub to_proto_stack_status_summary : Models.StackStatusSummary → WireSummary
to_proto_stack_status_summary summary = record {
  stack_id = summary.stack_id;
  status = to_proto_status summary.status;
  ttl = ts_or_nil summary.ttl;
  ports = to_proto_port_mappings summary.ports;
  node_public_ip = summary.node_public_ip;
  target_ports = to_proto_port_specs summary.target_ports;
}

unfoldable pub to_proto_stats : Models.Stats → WireStats
to_proto_stats stats = record {
  total_stacks = to_int32 (pos stats.total_stacks);
  active_stacks = to_int32 (pos stats.active_stacks);
  node_distribution = map (λ (key, value). (key, to_int32 (pos value))) stats.node_distribution;
  used_node_ports = to_int32 (pos stats.used_node_ports);
  reserved_cpu_milli = stats.reserved_cpu_milli;
  reserved_memory_bytes = stats.reserved_memory_bytes;
}

abbrev pub to_proto_job_error : Models.JobError → WireJobError
to_proto_job_error item = record { stack_id = item.stack_id; error = item.error }

unfoldable pub to_proto_batch_delete_job : Models.BatchDeleteJob → WireJob
to_proto_batch_delete_job job = record {
  job_id = job.job_id;
  status = to_proto_job_status job.status;
  total = to_int32 (pos job.total);
  deleted = to_int32 (pos job.deleted);
  not_found = to_int32 (pos job.not_found);
  failed = to_int32 (pos job.failed);
  errors = map to_proto_job_error job.errors;
  created_at = ts_or_nil job.created_at;
  updated_at = ts_or_nil job.updated_at;
}
