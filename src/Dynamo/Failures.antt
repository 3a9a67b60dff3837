-- ===== src/Dynamo/Failures.antt =====
-- What internal/stack/dynamodb.go makes of the exceptions of DynamoDB.
use container_provisioner_k.Base.{
  ℕ, zero, suc, String, Bool, false, Option, none, some, List, [], ◌∷◌, if◌then◌else◌, ◌==◌,
  string_eq,
}
use container_provisioner_k.Errors.{
  Error, Result, ok, err, sentinel, not_found, no_available_node_port, is_condition_failed,
  cancellation_codes,
}

-- The position of the first reason of a canceled transaction that is a failed condition.
unfoldable pub failed_at : ℕ → List (Option String) → Option ℕ
failed_at idx [] = none
failed_at idx (none ∷ codes) = failed_at (suc idx) codes
failed_at idx (some code ∷ codes) =
    let rest = failed_at (suc idx) codes in
    if code == "ConditionalCheckFailed" then some idx else rest

abbrev pub mapped : Error → Option ℕ → Error
mapped e none = e
mapped e (some zero) = e
mapped e (some (suc idx)) = sentinel no_available_node_port

unfoldable pub map_dynamo_tx_error : Error → Error
unfolding failed_at
map_dynamo_tx_error e = elim (cancellation_codes e) [
  | none ↦ e
  | some codes ↦ mapped e (failed_at 0 codes)
]

-- CancellationReasons[index] is a failed condition; past the end it is none.
unfoldable pub is_failed_code : ℕ → List (Option String) → Bool
is_failed_code index [] = false
is_failed_code zero (none ∷ codes) = false
is_failed_code zero (some code ∷ codes) = code == "ConditionalCheckFailed"
is_failed_code (suc index) (code ∷ codes) = is_failed_code index codes

unfoldable pub tx_condition_failed_at : Error → ℕ → Bool
unfolding is_failed_code
tx_condition_failed_at e index = elim (cancellation_codes e) [
  | none ↦ false
  | some codes ↦ is_failed_code index codes
]

-- `if err != nil { return mapDynamoTxError(err) }`
abbrev pub map_error : (Error → Error) → Result (Unit {0}) → Result (Unit {0})
map_error f (ok a) = ok a
map_error f (err e) = err (f e)

-- `if errors.As(err, &condErr) { return ErrNotFound }`
abbrev pub missing_row : Error → Error
missing_row e = if is_condition_failed e then sentinel not_found else e
