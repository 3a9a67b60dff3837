-- ===== src/Grpc/Codes.antt =====
-- The codes that internal/grpcserver/server.go answers with.
use container_provisioner_k.Base.{true, false, some, ◌≡◌, refl, inl, inr, arith}
use container_provisioner_k.Base.Text.{trim_space}
use container_provisioner_k.Errors
use container_provisioner_k.Errors.{
  Sentinel, Error, sentinel, plain, wrap, api_status, canceled, deadline_exceeded, condition_failed,
  transaction_canceled, err, is_error, is_context_error, message_of, same_sentinel,
}
use container_provisioner_k.Validator.{validate_pod_spec}
use container_provisioner_k.Validator.Refusals.{IsRefusal, validate_pod_spec-IsRefusal}
use container_provisioner_k.Service.{Service}
use container_provisioner_k.Service.Provision.{create}
use container_provisioner_k.Grpc.{GrpcLibrary, refused, invalid_argument}
use container_provisioner_k.Grpc.Wire.{from_proto_port_specs}
use container_provisioner_k.Grpc.Server.{
  CreateStackRequest, stack_service, create_stack, grpc_error,
}

-- A chain of errors ends in one cause.
is_error-is_context_error :
    (s : Sentinel) (e : Error) → is_error s e ≡ true → is_context_error e ≡ false
is_error-is_context_error s (sentinel t) h = refl
is_error-is_context_error s (wrap pre e post) h = is_error-is_context_error s e h
is_error-is_context_error s (plain m) h = refl
is_error-is_context_error s (api_status m causes) h = refl
is_error-is_context_error s canceled h = ground arith
is_error-is_context_error s deadline_exceeded h = ground arith
is_error-is_context_error s (condition_failed m) h = refl
is_error-is_context_error s (transaction_canceled m codes) h = refl

same_sentinel_unique :
    (s t u : Sentinel) → same_sentinel s u ≡ true → same_sentinel t u ≡ same_sentinel t s
same_sentinel_unique Errors.not_found t u h = ground arith
same_sentinel_unique Errors.invalid_input t u h = ground arith
same_sentinel_unique Errors.pod_spec_invalid t u h = ground arith
same_sentinel_unique Errors.no_available_node_port t u h = ground arith
same_sentinel_unique Errors.cluster_saturated t u h = ground arith

is_error_unique :
    (s t : Sentinel) (e : Error) → is_error s e ≡ true → is_error t e ≡ same_sentinel t s
is_error_unique s t (sentinel u) h = same_sentinel_unique s t u h
is_error_unique s t (wrap pre e post) h = is_error_unique s t e h
is_error_unique s t (plain m) h = ground arith
is_error_unique s t (api_status m causes) h = ground arith
is_error_unique s t canceled h = ground arith
is_error_unique s t deadline_exceeded h = ground arith
is_error_unique s t (condition_failed m) h = ground arith
is_error_unique s t (transaction_canceled m codes) h = ground arith

IsRefusal-grpc_error :
    (grpc : GrpcLibrary) (e : Error)
    → IsRefusal e
    → grpc_error grpc e ≡ record { code = invalid_argument; message = message_of e }
unfolding grpc_error
IsRefusal-grpc_error grpc e (inl h) =
    rw
      (
        is_error-is_context_error Errors.invalid_input e h,
        is_error_unique Errors.invalid_input Errors.not_found e h,
        h,
      )
      refl
IsRefusal-grpc_error grpc e (inr h) =
    rw
      (
        is_error-is_context_error Errors.pod_spec_invalid e h,
        is_error_unique Errors.pod_spec_invalid Errors.not_found e h,
        is_error_unique Errors.pod_spec_invalid Errors.invalid_input e h,
        h,
      )
      refl

-- A CreateStack request whose pod spec the validator refuses is answered with the code
-- InvalidArgument and the validator's message, and nothing else has happened.
pub create_stack-invalid_argument :
    {W Q : Type 0} (grpc : GrpcLibrary) (s : Service W Q) (req : CreateStackRequest) (w : W)
    (e : Error)
    → validate_pod_spec s.validator
        (trim_space req.pod_spec)
        (from_proto_port_specs req.target_ports)
      ≡ err e
    → create_stack grpc (stack_service s) (some req) w
      ≡ (refused (record { code = invalid_argument; message = message_of e }), w)
unfolding create_stack stack_service create
create_stack-invalid_argument grpc s req w e h =
    rw
      (
        h,
        IsRefusal-grpc_error grpc e (
            validate_pod_spec-IsRefusal s.validator (trim_space req.pod_spec)
              (from_proto_port_specs req.target_ports) e h),
      )
      refl
