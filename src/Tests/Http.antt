-- ===== src/Tests/Http.antt =====
-- Requests to the HTTP server.
use container_provisioner_k.Base.{
  String, true, List, [], ◌∷◌, ◌≡◌, refl, if◌then◌else◌, ◌==◌, string_eq,
}
use container_provisioner_k.Config.{ApiKeyConfig}
use container_provisioner_k.Errors.{Error, because, cluster_saturated}
use container_provisioner_k.Grpc
use container_provisioner_k.Grpc.{GrpcLibrary}
use container_provisioner_k.Grpc.Server.{grpc_error, clean_ids}
use container_provisioner_k.Http.{
  HttpHandler, Request, write_error, json, error_body, clean_stack_ids,
}
use container_provisioner_k.Http.Access.{IsGuarded, api_key_auth-IsGuarded}
use container_provisioner_k.Http.Agreement.{
  http_status, agreed, write_error-grpc_error, clean_ids-clean_stack_ids,
}

abbrev grpc : GrpcLibrary
grpc = record { from_context_error = λ e. record { code = Grpc.internal; message = "" } }

abbrev failure : Error
failure = because cluster_saturated ": no node"

write_error-grpc_error_example :
    write_error failure
    ≡ json
        (http_status (grpc_error grpc failure).code)
        (error_body (grpc_error grpc failure).message)
write_error-grpc_error_example = write_error-grpc_error grpc failure refl

abbrev ids : List String
ids = "stack-1" ∷ " stack-2 " ∷ "stack-1" ∷ []

clean_ids-clean_stack_ids_example : clean_ids [] [] ids ≡ agreed (clean_stack_ids [] [] ids)
clean_ids-clean_stack_ids_example = clean_ids-clean_stack_ids ids

abbrev config : ApiKeyConfig
config = record { enabled = true; value = "secret" }

abbrev request : Request
request = record {
  path = "/stacks";
  header = λ key. "";
  query = λ key. if key == "api_key" then "secret" else "";
}

abbrev handler : HttpHandler String
handler w = (json 200 (error_body ""), "changed")

api_key_auth-IsGuarded_example : IsGuarded config request handler "before"
api_key_auth-IsGuarded_example = api_key_auth-IsGuarded config request handler "before"
