-- ===== src/Http.antt =====
-- internal/http/handlers/handler.go and internal/http/middleware/api_key.go: the handlers of the HTTP
-- server. gin's binding of a JSON body is an argument, none where it fails; a response is its status
-- and the value that gin writes as JSON. c.Error, which only feeds the log, is left out.
pub mod Agreement
pub mod Access
use Prim.Native.Char.{code}
use Prim.Native.String
use container_provisioner_k.Base.{
  ℕ, String, Bool, true, false, ◌&&◌, ◌||◌, not, Option, none, some, List, [], ◌∷◌, ◌++◌,
  if◌then◌else◌, ◌==◌, string_eq, nat_eq,
}
use container_provisioner_k.Base.Text.{trim_space}
use container_provisioner_k.Config.{ApiKeyConfig}
use container_provisioner_k.Errors
use container_provisioner_k.Errors.{Error, Result, ok, err, is_error, message_of}
use container_provisioner_k.Op.{Op}
use container_provisioner_k.Models.{
  PortSpec, CreateInput, Stack, StackStatusSummary, BatchDeleteJob, Stats,
}
use container_provisioner_k.Validator.{has_key}
use container_provisioner_k.Grpc.Server.{StackService}

-- The values that the handlers write, gin.H with one key for the last ones.
pub data Body : Type 0 where
  error_body : String → Body
  stack_body : Stack → Body
  summary_body : StackStatusSummary → Body
  deleted_body : String → Body
  stacks_body : List Stack → Body
  job_id_body : String → Body
  job_body : BatchDeleteJob → Body
  stats_body : Stats → Body

pub record Response : Type 0 where
  pub status : ℕ
  pub body : Body

abbrev pub HttpHandler : Type 0 → Type 0
HttpHandler W = W → Response × W

abbrev pub json : ℕ → Body → Response
json status body = record { status = status; body = body }

unfoldable pub write_error : Error → Response
write_error e =
    if is_error Errors.not_found e
    then json 404 (error_body (message_of e))
    else if is_error Errors.invalid_input e || is_error Errors.pod_spec_invalid e
    then json 400 (error_body (message_of e))
    else if is_error Errors.no_available_node_port e || is_error Errors.cluster_saturated e
    then json 503 (error_body (message_of e))
    else json 500 (error_body "internal server error")

-- `if err != nil { h.writeError(c, err); return }` and the response of a success
abbrev pub respond : {A : Type 0} → ℕ → (A → Body) → Result A → Response
respond status f (ok a) = json status (f a)
respond status f (err e) = write_error e

pub record CreateStackRequest : Type 0 where
  pub pod_spec : String
  pub target_port : List PortSpec

-- The loop of CreateBatchDeleteJob, with the ids seen and the clean ids so far; none where an id is
-- empty.
unfoldable pub clean_stack_ids : List String → List String → List String → Option (List String)
clean_stack_ids seen clean [] = some clean
clean_stack_ids seen clean (id ∷ ids) = elim (trim_space id == "") [
  | true ↦ none
  | false ↦ elim (has_key (trim_space id) seen) [
    | true ↦ clean_stack_ids seen clean ids
    | false ↦ clean_stack_ids (trim_space id ∷ seen) (clean ++ trim_space id ∷ []) ids
  ]
]

module _ {W : Type 0} (service : StackService W) where
  abbrev pub call : {A : Type 0} → ℕ → (A → Body) → Op W A → HttpHandler W
  call status f m w = let (r, w') = m w in (respond status f r, w')

  unfoldable pub create_stack : Option CreateStackRequest → HttpHandler W
  create_stack none w = (json 400 (error_body "invalid json body"), w)
  create_stack (some req) w =
      call 201 stack_body
        (service.create (record { pod_spec_yml = req.pod_spec; target_ports = req.target_port })) w

  unfoldable pub get_stack : String → HttpHandler W
  get_stack stack_id = call 200 stack_body (service.get_details stack_id)

  unfoldable pub get_stack_status_summary : String → HttpHandler W
  get_stack_status_summary stack_id = call 200 summary_body (service.get_status_summary stack_id)

  unfoldable pub delete_stack : String → HttpHandler W
  delete_stack stack_id = call 200 (λ u. deleted_body stack_id) (service.delete stack_id)

  unfoldable pub list_stacks : HttpHandler W
  list_stacks = call 200 stacks_body service.list_all

  abbrev pub start_job : Option (List String) → HttpHandler W
  start_job none w = (json 400 (error_body "invalid stack_ids"), w)
  start_job (some clean) w =
      call 202 (λ started. job_id_body started.0) (service.start_batch_delete clean) w

  unfoldable pub create_batch_delete_job : Option (List String) → HttpHandler W
  unfolding clean_stack_ids
  create_batch_delete_job none w = (json 400 (error_body "invalid json body"), w)
  create_batch_delete_job (some stack_ids) w = start_job (clean_stack_ids [] [] stack_ids) w

  unfoldable pub get_batch_delete_job : String → HttpHandler W
  get_batch_delete_job job_id = call 200 job_body (service.get_batch_delete_job job_id)

  unfoldable pub get_stats : HttpHandler W
  get_stats = call 200 stats_body service.stats

-- strings.HasPrefix(s, prefix)
unfoldable pub has_prefix : String → String → Bool
has_prefix s String.[] = true
has_prefix String.[] (String.◌∷◌ c p) = false
has_prefix (String.◌∷◌ d s) (String.◌∷◌ c p) =
    let rest = has_prefix s p in if code d == code c then rest else false

-- What APIKeyAuth reads of a request: the path, a header and a parameter of the query.
pub record Request : Type 0 where
  pub path : String
  pub header : String → String
  pub query : String → String

abbrev pub provided_key : Request → String
provided_key req =
    let provided = trim_space (req.header "X-API-KEY") in
    if provided == "" then trim_space (req.query "api_key") else provided

unfoldable pub api_key_auth : {W : Type 0} → ApiKeyConfig → Request → HttpHandler W → HttpHandler W
unfolding has_prefix
api_key_auth cfg req next w =
    if has_prefix req.path "/dashboard"
    then next w
    else if not cfg.enabled
    then next w
    else if trim_space cfg.value == ""
    then (json 500 (error_body "api key is not configured"), w)
    else if provided_key req == "" || not (provided_key req == trim_space cfg.value)
    then (json 401 (error_body "invalid api key"), w)
    else next w
