-- ===== src/Dynamo/RoundTrip.antt =====
-- Reading back what internal/stack/dynamodb.go stores.
use container_provisioner_k.Base.{
  ◌<◌, ◌^◌, String, false, some, List, [], ◌∷◌, ◌==◌, string_eq, ◌≡◌, ◌≢◌, refl, ap, ◌∙◌, All,
  All-map, arith, eq_iff, Option-cases, ◌⊎◌, inl, inr,
}
use container_provisioner_k.Base.Text.Numbers.{FitsInt64, parse_int64-format_int, parse_int64-itoa}
use container_provisioner_k.Errors.{Result, ok}
use container_provisioner_k.Models
use container_provisioner_k.Models.{
  Status, JobStatus, PortSpec, PortMapping, Stack, JobError, BatchDeleteJob,
}
use container_provisioner_k.Dynamo.Items.{
  Item, find, read_entries, as_entries, to_list, attr_string, attr_string_optional, attr_int64,
  attr_time, TimeLibrary, TimeLaws, year_10000,
}
use container_provisioner_k.Dynamo.Codec.{
  status_text, status_of, job_status_text, job_status_of, port_spec_item, port_mapping_item,
  job_error_item, read_port_spec, read_port_mapping, read_job_error, stack_to_item, stack_from_item,
  job_to_item, job_from_item, attr_port_specs, attr_port_mappings, attr_job_errors,
  port_specs_to_attr, port_mappings_to_attr, job_errors_to_attr,
}

-- A status outside the constants is not spelled like one of them.
abbrev pub IsPlain : Status → Type 0
IsPlain (Models.Status.other text) = status_of text ≡ Models.Status.other text
IsPlain _ = Unit

abbrev pub IsPlainJob : JobStatus → Type 0
IsPlainJob (Models.JobStatus.other text) = job_status_of text ≡ Models.JobStatus.other text
IsPlainJob _ = Unit

status_of-status_text : (status : Status) → IsPlain status → status_of (status_text status) ≡ status
unfolding status_of
status_of-status_text Models.creating h = refl
status_of-status_text Models.Status.running h = refl
status_of-status_text Models.stopped h = refl
status_of-status_text Models.Status.failed h = refl
status_of-status_text Models.node_deleted h = refl
status_of-status_text (Models.Status.other text) h = h

job_status_of-job_status_text :
    (status : JobStatus) → IsPlainJob status → job_status_of (job_status_text status) ≡ status
unfolding job_status_of
job_status_of-job_status_text Models.queued h = refl
job_status_of-job_status_text Models.JobStatus.running h = refl
job_status_of-job_status_text Models.completed h = refl
job_status_of-job_status_text Models.JobStatus.failed h = refl
job_status_of-job_status_text (Models.JobStatus.other text) h = h

-- If every entry reads back, so does the list.
read_entries-to_list :
    {A : Type 0} (key : String) (read : Item → Result A) (write : A → Item) (as' : List A)
    → All (λ a. read (write a) ≡ ok a) as'
    → read_entries key read (to_list write as') ≡ ok as'
unfolding read_entries to_list
read_entries-to_list key read write [] h = refl
read_entries-to_list key read write (a ∷ rest) h =
    rw (h.0, read_entries-to_list key read write rest h.1) refl

abbrev pub FitsPort : PortMapping → Type 0
FitsPort p = FitsInt64 p.container_port × (p.node_port < 2 ^ 63)

read_port_spec-item :
    (p : PortSpec) → FitsInt64 p.container_port → read_port_spec (port_spec_item p) ≡ ok p
unfolding attr_int64 attr_string find
read_port_spec-item p h = rw (parse_int64-format_int p.container_port h) refl

read_port_mapping-item :
    (p : PortMapping) → FitsPort p → read_port_mapping (port_mapping_item p) ≡ ok p
unfolding attr_int64 attr_string find
read_port_mapping-item p h =
    rw (parse_int64-format_int p.container_port h.0, parse_int64-itoa p.node_port h.1) refl

read_job_error-item : (e : JobError) → read_job_error (job_error_item e) ≡ ok e
unfolding attr_string find
read_job_error-item e = refl

All-always {ℓ κ} : {A : Type ℓ} {Q : A → Type κ} (f : (a : A) → Q a) (rest : List A) → All Q rest
All-always f [] = tt
All-always f (a ∷ rest) = (f a, All-always f rest)

-- What DynamoDB can hold of a stack: numbers of 64 bits, times before the year 10000, an address that
-- is not the empty text.
pub record IsStorable (st : Stack) : Type 0 where
  pub public_ip : st.node_public_ip ≢ some ""
  pub target_ports : All (λ p. FitsInt64 p.container_port) st.target_ports
  pub ports : All FitsPort st.ports
  pub status : IsPlain st.status
  pub ttl : st.ttl_expires_at < year_10000
  pub created : st.created_at < year_10000
  pub updated : st.updated_at < year_10000
  pub milli : FitsInt64 st.requested_milli
  pub bytes : FitsInt64 st.requested_bytes

as_optional-nonempty : (t : String) → t ≢ "" → (t == "") ≡ false
as_optional-nonempty t h = ground (arith, eq_iff t "")

-- A stack that can be stored is read back from its item as it was.
pub stack_from_item-stack_to_item :
    (lib : TimeLibrary)
    → TimeLaws lib
    → (st : Stack) → IsStorable st
    → stack_from_item lib (stack_to_item lib st) ≡ ok st
unfolding stack_from_item stack_to_item attr_string attr_string_optional attr_int64 attr_time find
    attr_port_specs attr_port_mappings as_entries port_specs_to_attr port_mappings_to_attr
stack_from_item-stack_to_item lib laws st v =
    let specs =
      read_entries-to_list "target_ports" read_port_spec port_spec_item st.target_ports
        (All-map read_port_spec-item st.target_ports v.target_ports) in
    let mappings =
      read_entries-to_list "ports" read_port_mapping port_mapping_item st.ports
        (All-map read_port_mapping-item st.ports v.ports) in
    elim (Option-cases st.node_public_ip) [
      | inl e ↦
          rw
            (
              e,
              laws.parse-format st.ttl_expires_at v.ttl,
              laws.parse-format st.created_at v.created,
              laws.parse-format st.updated_at v.updated,
              specs,
              mappings,
              status_of-status_text st.status v.status,
              parse_int64-format_int st.requested_milli v.milli,
              parse_int64-format_int st.requested_bytes v.bytes,
            )
            refl
      | inr (ip, e) ↦
          rw
            (
              e,
              laws.parse-format st.ttl_expires_at v.ttl,
              laws.parse-format st.created_at v.created,
              laws.parse-format st.updated_at v.updated,
              specs,
              mappings,
              status_of-status_text st.status v.status,
              parse_int64-format_int st.requested_milli v.milli,
              parse_int64-format_int st.requested_bytes v.bytes,
              as_optional-nonempty ip (λ h. v.public_ip (e ∙ ap some h)),
            )
            refl
    ]

-- What DynamoDB can hold of a batch job.
pub record IsStorableJob (job : BatchDeleteJob) : Type 0 where
  pub status : IsPlainJob job.status
  pub total : job.total < 2 ^ 63
  pub deleted : job.deleted < 2 ^ 63
  pub not_found : job.not_found < 2 ^ 63
  pub failed : job.failed < 2 ^ 63
  pub created : job.created_at < year_10000
  pub updated : job.updated_at < year_10000

List-cases {ℓ} :
    {A : Type ℓ} (rest : List A) → (rest ≡ []) ⊎ ((a : A) × (tail : List A) × (rest ≡ (a ∷ tail)))
List-cases [] = inl refl
List-cases (a ∷ tail) = inr (a, tail, refl)

-- A batch job that can be stored is read back from its item as it was, with its errors in order.
pub job_from_item-job_to_item :
    (lib : TimeLibrary)
    → TimeLaws lib
    → (job : BatchDeleteJob) → IsStorableJob job
    → job_from_item lib (job_to_item lib job) ≡ ok job
unfolding job_from_item job_to_item attr_string attr_int64 attr_time find attr_job_errors as_entries
    job_errors_to_attr
job_from_item-job_to_item lib laws job v =
    let created = laws.parse-format job.created_at v.created in
    let updated = laws.parse-format job.updated_at v.updated in
    let status = job_status_of-job_status_text job.status v.status in
    let total = parse_int64-itoa job.total v.total in
    let deleted = parse_int64-itoa job.deleted v.deleted in
    let not_found = parse_int64-itoa job.not_found v.not_found in
    let failed = parse_int64-itoa job.failed v.failed in
    let entries =
      read_entries-to_list "errors" read_job_error job_error_item job.errors
        (All-always read_job_error-item job.errors) in
    elim (List-cases job.errors) [
      | inl e ↦ rw (e, created, updated, status, total, deleted, not_found, failed) refl
      | inr (first, rest, e) ↦
          rw (e, created, updated, status, total, deleted, not_found, failed, rw e at entries) refl
    ]
