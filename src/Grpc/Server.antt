-- ===== src/Grpc/Server.antt =====
-- The handlers of internal/grpcserver/server.go over the interface StackService.
use container_provisioner_k.Base.{
  String, Bool, true, false, ◌||◌, Option, none, some, List, [], ◌∷◌, ◌++◌, map, ◌==◌, string_eq,
  if◌then◌else◌,
}
use container_provisioner_k.Base.Text.{trim_space}
use container_provisioner_k.Errors
use container_provisioner_k.Errors.{Error, Result, ok, err, is_error, is_context_error, message_of}
use container_provisioner_k.Op.{Op}
use container_provisioner_k.Models.{CreateInput, Stack, StackStatusSummary, BatchDeleteJob, Stats}
use container_provisioner_k.Validator.{has_key}
use container_provisioner_k.Service.{Service}
use container_provisioner_k.Service.Provision
use container_provisioner_k.Service.Query
use container_provisioner_k.Service.Batch
use container_provisioner_k.Grpc
use container_provisioner_k.Grpc.{
  Code, GrpcError, GrpcLibrary, Reply, reply, refused, status_error, Handler, invalid_argument,
}
use container_provisioner_k.Grpc.Wire.{
  WirePortSpec, WireStack, WireSummary, WireStats, WireJob, to_proto_stack,
  to_proto_stack_status_summary, to_proto_stats, to_proto_batch_delete_job, from_proto_port_specs,
}

-- `start_batch_delete` returns the job's id and the goroutine that it has started.
pub record StackService (W : Type 0) : Type 0 where
  pub create : CreateInput → Op W Stack
  pub get_details : String → Op W Stack
  pub get_status_summary : String → Op W StackStatusSummary
  pub delete : String → Op W (Unit {0})
  pub list_all : Op W (List Stack)
  pub start_batch_delete : List String → Op W (String × Op W (Unit {0}))
  pub get_batch_delete_job : String → Op W BatchDeleteJob
  pub stats : Op W Stats

-- *stack.Service as a StackService
unfoldable pub stack_service : {W Q : Type 0} → Service W Q → StackService W
stack_service s = record {
  create = Provision.create s;
  get_details = Query.get_details s;
  get_status_summary = Query.get_status_summary s;
  delete = Query.delete s;
  list_all = Query.list_all s;
  start_batch_delete = Batch.start_batch_delete s;
  get_batch_delete_job = Batch.get_batch_delete_job s;
  stats = Query.stats s;
}

pub record CreateStackRequest : Type 0 where
  pub pod_spec : String
  pub target_ports : List (Option WirePortSpec)

pub record StackRequest : Type 0 where
  pub stack_id : String

pub record JobRequest : Type 0 where
  pub job_id : String

pub record BatchRequest : Type 0 where
  pub stack_ids : List String

pub record Deleted : Type 0 where
  pub deleted : Bool
  pub stack_id : String

-- The loop of CreateBatchDeleteJob, with the ids seen and the clean ids so far.
unfoldable pub clean_ids : List String → List String → List String → Reply (List String)
clean_ids seen clean [] = reply clean
clean_ids seen clean (id ∷ ids) = elim (trim_space id == "") [
  | true ↦ status_error invalid_argument "stack_ids must not contain empty values"
  | false ↦ elim (has_key (trim_space id) seen) [
    | true ↦ clean_ids seen clean ids
    | false ↦ clean_ids (trim_space id ∷ seen) (clean ++ trim_space id ∷ []) ids
  ]
]

module _ (grpc : GrpcLibrary) where
  unfoldable pub grpc_error : Error → GrpcError
  grpc_error e =
      if is_context_error e
      then grpc.from_context_error e
      else (if is_error Errors.not_found e
          then record { code = Grpc.not_found; message = message_of e }
          else (if is_error Errors.invalid_input e || is_error Errors.pod_spec_invalid e
              then record { code = invalid_argument; message = message_of e }
              else (if is_error Errors.no_available_node_port e
                    || is_error Errors.cluster_saturated e
                  then record { code = Grpc.unavailable; message = message_of e }
                  else record { code = Grpc.internal; message = "internal server error" })))

  -- The reply made of a call's result.
  abbrev pub answer : {A B : Type 0} → (A → B) → Result A → Reply B
  answer f (ok a) = reply (f a)
  answer f (err e) = refused (grpc_error e)

  module _ {W : Type 0} (service : StackService W) where
    abbrev call : {A B : Type 0} → (A → B) → Op W A → Handler W B
    call f m w = let (r, w') = m w in (answer f r, w')

    -- `strings.TrimSpace(id)`, refused when it is empty
    abbrev with_id : {B : Type 0} → String → String → (String → Handler W B) → Handler W B
    with_id id refusal handler w =
        if trim_space id == ""
        then (status_error invalid_argument refusal, w)
        else handler (trim_space id) w

    unfoldable pub create_stack : Option CreateStackRequest → Handler W WireStack
    create_stack none w = (status_error invalid_argument "request is required", w)
    create_stack (some req) w =
        call to_proto_stack
          (service.create (record {
            pod_spec_yml = trim_space req.pod_spec;
            target_ports = from_proto_port_specs req.target_ports;
          }))
          w

    unfoldable pub get_stack : Option StackRequest → Handler W WireStack
    get_stack none w = (status_error invalid_argument "request is required", w)
    get_stack (some req) w =
        with_id req.stack_id "stack_id is required"
          (λ id. call to_proto_stack (service.get_details id)) w

    unfoldable pub get_stack_status_summary : Option StackRequest → Handler W WireSummary
    get_stack_status_summary none w = (status_error invalid_argument "request is required", w)
    get_stack_status_summary (some req) w =
        with_id req.stack_id "stack_id is required"
          (λ id. call to_proto_stack_status_summary (service.get_status_summary id)) w

    unfoldable pub delete_stack : Option StackRequest → Handler W Deleted
    delete_stack none w = (status_error invalid_argument "request is required", w)
    delete_stack (some req) w =
        with_id req.stack_id "stack_id is required"
          (λ id. call (λ _. record { deleted = true; stack_id = id }) (service.delete id)) w

    unfoldable pub list_stacks : Handler W (List WireStack)
    list_stacks w = call (map to_proto_stack) service.list_all w

    -- The reply also carries the goroutine that was started.
    unfoldable pub create_batch_delete_job :
        Option BatchRequest → Handler W (String × Op W (Unit {0}))
    create_batch_delete_job none w = (status_error invalid_argument "request is required", w)
    create_batch_delete_job (some req) w = elim (clean_ids [] [] req.stack_ids) [
      | refused e ↦ (refused e, w)
      | reply clean ↦ call (λ started. started) (service.start_batch_delete clean) w
    ]

    unfoldable pub get_batch_delete_job : Option JobRequest → Handler W WireJob
    get_batch_delete_job none w = (status_error invalid_argument "request is required", w)
    get_batch_delete_job (some req) w =
        with_id req.job_id "job_id is required"
          (λ id. call to_proto_batch_delete_job (service.get_batch_delete_job id)) w

    unfoldable pub get_stats : Handler W WireStats
    get_stats w = call to_proto_stats service.stats w
