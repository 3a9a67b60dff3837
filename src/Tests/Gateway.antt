-- ===== src/Tests/Gateway.antt =====
-- Runs of the gRPC server.
use container_provisioner_k.Base.{
  String, ◌≡◌, refl, true, some, [], ◌∷◌, List, if◌then◌else◌, ◌==◌, string_eq,
}
use container_provisioner_k.Base.Int.{pos}
use container_provisioner_k.Config.{ApiKeyConfig}
use container_provisioner_k.Errors.{because, pod_spec_invalid, message_of, err}
use container_provisioner_k.Memory.{memory_service}
use container_provisioner_k.Grpc.{GrpcLibrary, refused, numbered, invalid_argument}
use container_provisioner_k.Grpc.Wire.{from_proto_port_specs}
use container_provisioner_k.Grpc.Server.{
  CreateStackRequest, stack_service, create_stack, list_stacks, clean_ids,
}
use container_provisioner_k.Grpc.Auth.{IsGuarded, interceptor-IsGuarded}
use container_provisioner_k.Grpc.Ids.{AreCleaned, clean_ids-AreCleaned}
use container_provisioner_k.Grpc.Codes.{create_stack-invalid_argument}
use container_provisioner_k.Tests.Inputs.{library, config, world}
use container_provisioner_k.Base.Text.{trim_space}
use container_provisioner_k.Validator.{validate_pod_spec}

abbrev grpc : GrpcLibrary
grpc = record { from_context_error = λ e. record { code = numbered 1; message = message_of e } }

abbrev cfg : ApiKeyConfig
cfg = record { enabled = true; value = "secret" }

abbrev headers : String → List String
headers key = if key == "api_key" then "secret" ∷ [] else []

interceptor-IsGuarded_example :
    IsGuarded cfg
      (some headers)
      (list_stacks grpc (stack_service (memory_service config library)))
      world
interceptor-IsGuarded_example =
    interceptor-IsGuarded cfg (some headers)
      (list_stacks grpc (stack_service (memory_service config library))) world

clean_ids-AreCleaned_example :
    AreCleaned ("a" ∷ " b" ∷ "a " ∷ []) (clean_ids [] [] ("a" ∷ " b" ∷ "a " ∷ []))
clean_ids-AreCleaned_example = clean_ids-AreCleaned ("a" ∷ " b" ∷ "a " ∷ [])

abbrev blank : CreateStackRequest
blank = record {
  pod_spec = " ";
  target_ports = some (record { container_port = pos 80; protocol = "TCP" }) ∷ [];
}

blank_refused :
    validate_pod_spec library (trim_space blank.pod_spec) (from_proto_port_specs blank.target_ports)
    ≡ err (because pod_spec_invalid ": pod_spec is required")
unfolding validate_pod_spec trim_space
blank_refused = refl

create_stack-invalid_argument_example :
    create_stack grpc (stack_service (memory_service config library)) (some blank) world ≡ (
      refused
          (record { code = invalid_argument; message = "invalid pod spec: pod_spec is required" }),
      world,
    )
create_stack-invalid_argument_example =
    create_stack-invalid_argument grpc (memory_service config library) blank world
      (because pod_spec_invalid ": pod_spec is required") blank_refused
