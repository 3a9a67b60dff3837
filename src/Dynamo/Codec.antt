-- ===== src/Dynamo/Codec.antt =====
-- The items of internal/stack/dynamodb.go: a stack and a batch job as the attributes that are stored
-- and back. A count or a node port that is negative, which the code never writes, reads as 0.
use container_provisioner_k.Base.{
  String, Option, none, some, List, [], ◌∷◌, ◌==◌, string_eq, if◌then◌else◌,
}
use container_provisioner_k.Base.Int.{pos, pos_part}
use container_provisioner_k.Base.Text.{itoa, format_int}
use container_provisioner_k.Errors.{Result, ok, ◌>>=◌}
use container_provisioner_k.Models
use container_provisioner_k.Models.{
  Status, JobStatus, PortSpec, PortMapping, Stack, JobError, BatchDeleteJob,
}
use container_provisioner_k.Dynamo.Items.{
  Attr, member_l, Item, no_entry, entry, find, av_s, av_n, or_zero, attr_string,
  attr_string_optional, attr_int, attr_int64, attr_time, TimeLibrary, as_entries, to_list,
}

-- string(st.Status) and Status(statusStr)
abbrev pub status_text : Status → String
status_text Models.creating = "creating"
status_text Models.Status.running = "running"
status_text Models.stopped = "stopped"
status_text Models.Status.failed = "failed"
status_text Models.node_deleted = "node_deleted"
status_text (Models.Status.other text) = text

unfoldable pub status_of : String → Status
status_of text =
    if text == "creating"
    then Models.creating
    else if text == "running"
    then Models.Status.running
    else if text == "stopped"
    then Models.stopped
    else if text == "failed"
    then Models.Status.failed
    else if text == "node_deleted"
    then Models.node_deleted
    else Models.Status.other text

abbrev pub job_status_text : JobStatus → String
job_status_text Models.queued = "queued"
job_status_text Models.JobStatus.running = "running"
job_status_text Models.completed = "completed"
job_status_text Models.JobStatus.failed = "failed"
job_status_text (Models.JobStatus.other text) = text

unfoldable pub job_status_of : String → JobStatus
job_status_of text =
    if text == "queued"
    then Models.queued
    else if text == "running"
    then Models.JobStatus.running
    else if text == "completed"
    then Models.completed
    else if text == "failed"
    then Models.JobStatus.failed
    else Models.JobStatus.other text

abbrev pub port_spec_item : PortSpec → Item
port_spec_item p =
    entry "container_port" (av_n (format_int p.container_port))
      (entry "protocol" (av_s p.protocol) no_entry)

abbrev pub port_mapping_item : PortMapping → Item
port_mapping_item p =
    entry "container_port" (av_n (format_int p.container_port))
      (entry "protocol" (av_s p.protocol) (entry "node_port" (av_n (itoa p.node_port)) no_entry))

abbrev pub job_error_item : JobError → Item
job_error_item e = entry "stack_id" (av_s e.stack_id) (entry "error" (av_s e.error) no_entry)

unfoldable pub port_specs_to_attr : List PortSpec → Attr
unfolding to_list
port_specs_to_attr ports = member_l (to_list port_spec_item ports)

unfoldable pub port_mappings_to_attr : List PortMapping → Attr
unfolding to_list
port_mappings_to_attr ports = member_l (to_list port_mapping_item ports)

unfoldable pub job_errors_to_attr : List JobError → Attr
unfolding to_list
job_errors_to_attr errors = member_l (to_list job_error_item errors)

-- The bodies of the loops of attrPortSpecs, attrPortMappings and attrJobErrors
abbrev pub read_port_spec : Item → Result PortSpec
read_port_spec item = attr_int item "container_port" >>= λ port.
    ok (record { container_port = port; protocol = or_zero "" (attr_string item "protocol") })

abbrev pub read_port_mapping : Item → Result PortMapping
read_port_mapping item = attr_int item "container_port" >>= λ port.
    attr_int item "node_port" >>= λ node_port. ok (record {
      container_port = port;
      protocol = or_zero "" (attr_string item "protocol");
      node_port = pos_part node_port;
    })

abbrev pub read_job_error : Item → Result JobError
read_job_error item = ok (record {
  stack_id = or_zero "" (attr_string item "stack_id");
  error = or_zero "" (attr_string item "error");
})

unfoldable pub attr_port_specs : Item → String → Result (List PortSpec)
unfolding as_entries find
attr_port_specs item key = as_entries key read_port_spec (find key item)

unfoldable pub attr_port_mappings : Item → String → Result (List PortMapping)
unfolding as_entries find
attr_port_mappings item key = as_entries key read_port_mapping (find key item)

unfoldable pub attr_job_errors : Item → String → Result (List JobError)
unfolding as_entries find
attr_job_errors item key = as_entries key read_job_error (find key item)

module _ (lib : TimeLibrary) where
  -- `if st.NodePublicIP != nil`
  abbrev with_public_ip : Option String → Item → Item
  with_public_ip none item = item
  with_public_ip (some ip) item = entry "node_public_ip" (av_s ip) item

  unfoldable pub stack_to_item : Stack → Item
  unfolding port_specs_to_attr port_mappings_to_attr
  stack_to_item st = with_public_ip st.node_public_ip (
      entry "stack_id" (av_s st.stack_id) (
        entry "gsi1pk" (av_s "STACKS") (
          entry "gsi1sk" (av_s (lib.format st.created_at)) (
            entry "pod_id" (av_s st.pod_id) (
              entry "namespace" (av_s st.namespace) (
                entry "node_id" (av_s st.node_id) (
                  entry "pod_spec" (av_s st.pod_spec_yaml) (
                    entry "target_ports" (port_specs_to_attr st.target_ports) (
                      entry "ports" (port_mappings_to_attr st.ports) (
                        entry "service_name" (av_s st.service_name) (
                          entry "status" (av_s (status_text st.status)) (
                            entry "ttl_expires_at" (av_s (lib.format st.ttl_expires_at)) (
                              entry "created_at" (av_s (lib.format st.created_at)) (
                                entry "updated_at" (av_s (lib.format st.updated_at)) (
                                  entry "requested_cpu_milli" (av_n (format_int st.requested_milli))
                                    (entry "requested_memory_bytes"
                                      (av_n (format_int st.requested_bytes))
                                      no_entry))))))))))))))))

  unfoldable pub stack_from_item : Item → Result Stack
  unfolding attr_string attr_string_optional attr_time attr_int64 attr_port_specs attr_port_mappings
      status_of
  stack_from_item item = attr_string item "stack_id" >>= λ stack_id.
      attr_time lib item "ttl_expires_at" >>= λ ttl_at.
      attr_time lib item "created_at" >>= λ created_at.
      attr_time lib item "updated_at" >>= λ updated_at. ok (record {
        stack_id = stack_id;
        pod_id = or_zero "" (attr_string item "pod_id");
        namespace = or_zero "" (attr_string item "namespace");
        node_id = or_zero "" (attr_string item "node_id");
        node_public_ip = attr_string_optional item "node_public_ip";
        pod_spec_yaml = or_zero "" (attr_string item "pod_spec");
        target_ports = or_zero [] (attr_port_specs item "target_ports");
        ports = or_zero [] (attr_port_mappings item "ports");
        service_name = or_zero "" (attr_string item "service_name");
        status = status_of (or_zero "" (attr_string item "status"));
        ttl_expires_at = ttl_at;
        created_at = created_at;
        updated_at = updated_at;
        requested_milli = or_zero (pos 0) (attr_int64 item "requested_cpu_milli");
        requested_bytes = or_zero (pos 0) (attr_int64 item "requested_memory_bytes");
      })

  -- `if len(job.Errors) > 0`
  abbrev with_errors : List JobError → Item → Item
  with_errors [] item = item
  with_errors (e ∷ rest) item = entry "errors" (job_errors_to_attr (e ∷ rest)) item

  unfoldable pub job_to_item : BatchDeleteJob → Item
  unfolding job_errors_to_attr
  job_to_item job = with_errors job.errors (
      entry "job_id" (av_s job.job_id) (
        entry "status" (av_s (job_status_text job.status)) (
          entry "total" (av_n (itoa job.total)) (
            entry "deleted" (av_n (itoa job.deleted)) (
              entry "not_found" (av_n (itoa job.not_found)) (
                entry "failed" (av_n (itoa job.failed)) (
                  entry "created_at" (av_s (lib.format job.created_at))
                    (entry "updated_at" (av_s (lib.format job.updated_at)) no_entry))))))))

  unfoldable pub job_from_item : Item → Result BatchDeleteJob
  unfolding attr_string attr_time attr_int64 attr_job_errors job_status_of
  job_from_item item = attr_string item "job_id" >>= λ job_id.
      attr_time lib item "created_at" >>= λ created_at.
      attr_time lib item "updated_at" >>= λ updated_at. ok (record {
        job_id = job_id;
        status = job_status_of (or_zero "" (attr_string item "status"));
        total = pos_part (or_zero (pos 0) (attr_int item "total"));
        deleted = pos_part (or_zero (pos 0) (attr_int item "deleted"));
        not_found = pos_part (or_zero (pos 0) (attr_int item "not_found"));
        failed = pos_part (or_zero (pos 0) (attr_int item "failed"));
        errors = or_zero [] (attr_job_errors item "errors");
        created_at = created_at;
        updated_at = updated_at;
      })
