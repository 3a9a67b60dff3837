-- ===== src/Http/Agreement.antt =====
-- The HTTP server and the gRPC server answer alike.
use container_provisioner_k.Base.{
  ℕ, String, false, ◌||◌, none, some, List, [], ◌∷◌, ◌++◌, Option, ◌≡◌, refl, inl, inr, Bool-cases,
  ◌==◌, string_eq,
}
use container_provisioner_k.Base.Text.{trim_space}
use container_provisioner_k.Errors
use container_provisioner_k.Errors.{Error, is_error, is_context_error, message_of}
use container_provisioner_k.Validator.{has_key}
use container_provisioner_k.Grpc
use container_provisioner_k.Grpc.{GrpcError, GrpcLibrary, Code, Reply, reply, refused}
use container_provisioner_k.Grpc.Server.{grpc_error, clean_ids}
use container_provisioner_k.Http.{error_body, write_error, json, clean_stack_ids}

-- The HTTP status for a gRPC code, of those that grpcError gives to an error of the service.
abbrev pub http_status : Code → ℕ
http_status Grpc.not_found = 404
http_status Grpc.invalid_argument = 400
http_status Grpc.unavailable = 503
http_status _ = 500

-- An error of the service that is no error of a context gets the same verdict and the same text from
-- both servers.
pub write_error-grpc_error :
    (grpc : GrpcLibrary) (e : Error)
    → is_context_error e ≡ false
    → write_error e
      ≡ json (http_status (grpc_error grpc e).code) (error_body (grpc_error grpc e).message)
unfolding write_error grpc_error
write_error-grpc_error grpc e h = elim (Bool-cases (is_error Errors.not_found e)) [
  | inl a ↦ rw (h, a) refl
  | inr a ↦
      elim (Bool-cases (is_error Errors.invalid_input e || is_error Errors.pod_spec_invalid e)) [
        | inl b ↦ rw (h, a, b) refl
        | inr b ↦
            elim (Bool-cases
              (is_error Errors.no_available_node_port e || is_error Errors.cluster_saturated e)) [
                | inl d ↦ rw (h, a, b, d) refl
                | inr d ↦ rw (h, a, b, d) refl
              ]
      ]
]

abbrev pub agreed : Option (List String) → Reply (List String)
agreed none =
    refused
      (record { code = Grpc.invalid_argument; message = "stack_ids must not contain empty values" })
agreed (some clean) = reply clean

clean_loop :
    (seen clean ids : List String)
    → clean_ids seen clean ids ≡ agreed (clean_stack_ids seen clean ids)
unfolding clean_ids clean_stack_ids
clean_loop seen clean [] = refl
clean_loop seen clean (id ∷ ids) = elim (Bool-cases (trim_space id == "")) [
  | inl blank ↦ rw (blank, clean_ids, clean_stack_ids) refl
  | inr named ↦ elim (Bool-cases (has_key (trim_space id) seen)) [
    | inl known ↦ rw (named, known, clean_ids, clean_stack_ids) (clean_loop seen clean ids)
    | inr new ↦
        rw (named, new, clean_ids, clean_stack_ids)
          (clean_loop (trim_space id ∷ seen) (clean ++ trim_space id ∷ []) ids)
  ]
]

-- The two servers pass the same ids of a batch deletion on to the service, and refuse the same
-- requests.
pub clean_ids-clean_stack_ids :
    (ids : List String) → clean_ids [] [] ids ≡ agreed (clean_stack_ids [] [] ids)
clean_ids-clean_stack_ids ids = clean_loop [] [] ids
