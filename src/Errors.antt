-- ===== src/Errors.antt =====
-- internal/stack/errors.go, and Go's error values as the program makes and inspects them: the
-- package's sentinels, plain errors, `%w` wrapping, the API server's status errors and the errors
-- of a context, and the exceptions of DynamoDB that the repository looks for, a canceled transaction with the
-- code of the reason of each item. A fallible operation returns a `Result`; a stateful one is an `Op` on the world.
use Prim.Native.String.{◌++◌}
use container_provisioner_k.Base.{String, Bool, true, false, Option, none, some, List, []}

pub data Sentinel : Type 0 where
  not_found invalid_input pod_spec_invalid no_available_node_port cluster_saturated : Sentinel

-- The text given to `errors.New`.
abbrev pub sentinel_text : Sentinel → String
sentinel_text not_found = "stack not found"
sentinel_text invalid_input = "invalid input"
sentinel_text pod_spec_invalid = "invalid pod spec"
sentinel_text no_available_node_port = "no available nodeport"
sentinel_text cluster_saturated = "cluster saturated"

abbrev pub same_sentinel : Sentinel → Sentinel → Bool
same_sentinel not_found not_found = true
same_sentinel invalid_input invalid_input = true
same_sentinel pod_spec_invalid pod_spec_invalid = true
same_sentinel no_available_node_port no_available_node_port = true
same_sentinel cluster_saturated cluster_saturated = true
same_sentinel _ _ = false

-- A cause in the details of an API status: its type, field and message.
pub record StatusCause : Type 0 where
  pub cause_type : String
  pub field : String
  pub message : String

pub data Error : Type 0 where
  sentinel : Sentinel → Error
  plain : String → Error
  wrap : String → Error → String → Error
  api_status : String → List StatusCause → Error
  canceled deadline_exceeded : Error
  condition_failed : String → Error
  transaction_canceled : String → List (Option String) → Error

-- err.Error()
abbrev pub message_of : Error → String
message_of (sentinel s) = sentinel_text s
message_of (plain m) = m
message_of (wrap pre e post) = pre ++ (message_of e ++ post)
message_of (api_status m causes) = m
message_of canceled = "context canceled"
message_of deadline_exceeded = "context deadline exceeded"
message_of (condition_failed m) = m
message_of (transaction_canceled m reasons) = m

-- errors.Is with a sentinel of the package
abbrev pub is_error : Sentinel → Error → Bool
is_error s (sentinel t) = same_sentinel s t
is_error s (wrap pre e post) = is_error s e
is_error s _ = false

-- errors.Is with context.Canceled or context.DeadlineExceeded
abbrev pub is_context_error : Error → Bool
is_context_error canceled = true
is_context_error deadline_exceeded = true
is_context_error (wrap pre e post) = is_context_error e
is_context_error _ = false

-- errors.As to an API status: the causes in its details
abbrev pub status_causes : Error → List StatusCause
status_causes (api_status m causes) = causes
status_causes (wrap pre e post) = status_causes e
status_causes _ = []

-- errors.As to a ConditionalCheckFailedException
abbrev pub is_condition_failed : Error → Bool
is_condition_failed (condition_failed m) = true
is_condition_failed (wrap pre e post) = is_condition_failed e
is_condition_failed _ = false

-- errors.As to a TransactionCanceledException: the codes of its reasons
abbrev pub cancellation_codes : Error → Option (List (Option String))
cancellation_codes (transaction_canceled m codes) = some codes
cancellation_codes (wrap pre e post) = cancellation_codes e
cancellation_codes _ = none

-- fmt.Errorf("%w: text", sentinel)
abbrev pub because : Sentinel → String → Error
because s text = wrap "" (sentinel s) text

pub data Result {ℓ} (A : Type ℓ) : Type ℓ where
  ok : A → Result A
  err : Error → Result A

-- `if err != nil { return ..., err }` after a call
module _ {ℓ κ} {A : Type ℓ} {B : Type κ} where
  infixl 5 ◌>>=◌ ◌>>◌
  abbrev pub ◌>>=◌ : Result A → (A → Result B) → Result B
  err e >>= next = err e
  ok value >>= next = next value

  abbrev pub ◌>>◌ : Result A → Result B → Result B
  check >> next = check >>= λ _. next

-- `if test { return ..., fmt.Errorf("%w: text", sentinel) }`
abbrev pub refuse_if : Bool → Error → Result (Unit {0})
refuse_if true e = err e
refuse_if false e = ok tt
