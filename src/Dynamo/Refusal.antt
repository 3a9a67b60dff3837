-- ===== src/Dynamo/Refusal.antt =====
-- Which failed condition of a transaction Create and Delete of internal/stack/dynamodb.go report.
use container_provisioner_k.Base.{
  ℕ, zero, suc, ◌+◌, ◌<◌, true, false, Option, none, some, List, [], ◌∷◌, String, ◌==◌, string_eq,
  ◌≡◌, refl, ap, ◌∙◌, ◌⊎◌, inl, inr, Bool-cases, Option-cases, arith,
}
use container_provisioner_k.Errors.{Error, sentinel, no_available_node_port, cancellation_codes}
use container_provisioner_k.Dynamo.Failures.{
  failed_at, is_failed_code, mapped, map_dynamo_tx_error, tx_condition_failed_at,
}

failed_at-none :
    (idx : ℕ) (codes : List (Option String))
    → failed_at idx codes ≡ none
    → (i : ℕ) → is_failed_code i codes ≡ false
unfolding failed_at is_failed_code
failed_at-none idx [] h i = refl
failed_at-none idx (none ∷ codes) h zero = refl
failed_at-none idx (none ∷ codes) h (suc i) = failed_at-none (suc idx) codes h i
failed_at-none idx (some code ∷ codes) h zero = ground arith
failed_at-none idx (some code ∷ codes) h (suc i) =
    elim (Bool-cases (code == "ConditionalCheckFailed")) [
      | inl e ↦ absurd (cc)
      | inr e ↦ failed_at-none (suc idx) codes (rw e at h) i
    ]

shift-first :
    (code : Option String) (codes : List (Option String)) (j : ℕ)
    → is_failed_code 0 (code ∷ codes) ≡ false
    → ((i : ℕ) → i < j → is_failed_code i codes ≡ false)
    → (i : ℕ) → i < suc j
    → is_failed_code i (code ∷ codes) ≡ false
unfolding is_failed_code
shift-first code codes j h first zero less = h
shift-first code codes j h first (suc i) less = first i (omega arith)

-- The position that is found counts from `idx`, and is the first.
failed_at-some :
    (idx : ℕ) (codes : List (Option String)) (k : ℕ)
    → failed_at idx codes ≡ some k
    → (j : ℕ) × (k ≡ idx + j)
      × (is_failed_code j codes ≡ true)
      × ((i : ℕ) → i < j → is_failed_code i codes ≡ false)
unfolding failed_at is_failed_code
failed_at-some idx [] k h = absurd (cc)
failed_at-some idx (none ∷ codes) k h =
    let (j, e, failed, first) = failed_at-some (suc idx) codes k h in
    (suc j, omega (arith, e), failed, shift-first none codes j refl first)
failed_at-some idx (some code ∷ codes) k h = elim (Bool-cases (code == "ConditionalCheckFailed")) [
  | inl e ↦ (0, ground arith, e, λ i less. absurd (omega arith))
  | inr e ↦
      let (j, same, failed, first) = failed_at-some (suc idx) codes k (rw e at h) in
      (suc j, omega (arith, same), failed, shift-first (some code) codes j e first)
]

tx_condition_failed_at-codes :
    (e : Error) (codes : List (Option String)) (i : ℕ)
    → cancellation_codes e ≡ some codes
    → tx_condition_failed_at e i ≡ is_failed_code i codes
unfolding tx_condition_failed_at
tx_condition_failed_at-codes e codes i h = rw (h, tx_condition_failed_at) refl

map_dynamo_tx_error-codes :
    (e : Error) (codes : List (Option String)) (position : Option ℕ)
    → cancellation_codes e ≡ some codes
    → failed_at 0 codes ≡ position
    → map_dynamo_tx_error e ≡ mapped e position
unfolding map_dynamo_tx_error
map_dynamo_tx_error-codes e codes position h found =
    rw (h, map_dynamo_tx_error) (ap (mapped e) found)

-- Which position of the reasons decides about the error.
abbrev Decided : Error → Type 0
Decided e =
    ((j : ℕ) × (tx_condition_failed_at e (suc j) ≡ true)
      × ((i : ℕ) → i < suc j → tx_condition_failed_at e i ≡ false)
      × (map_dynamo_tx_error e ≡ sentinel no_available_node_port))
    ⊎ ((map_dynamo_tx_error e ≡ e)
        × ((tx_condition_failed_at e 0 ≡ true) ⊎ ((i : ℕ) → tx_condition_failed_at e i ≡ false)))

canceled_cases :
    (e : Error) (codes : List (Option String))
    → cancellation_codes e ≡ some codes
    → (position : Option ℕ) → failed_at 0 codes ≡ position
    → Decided e
canceled_cases e codes h none found = inr (
  map_dynamo_tx_error-codes e codes none h found,
  inr (λ i. tx_condition_failed_at-codes e codes i h ∙ failed_at-none 0 codes found i),
)
canceled_cases e codes h (some zero) found =
    let (j, same, failed, first) = failed_at-some 0 codes 0 found in
    let here : j ≡ 0 = omega (arith, same) in
    inr (
      map_dynamo_tx_error-codes e codes (some 0) h found,
      inl (tx_condition_failed_at-codes e codes 0 h ∙ rw here at failed),
    )
canceled_cases e codes h (some (suc k)) found =
    let (j, same, failed, first) = failed_at-some 0 codes (suc k) found in
    let here : j ≡ suc k = omega (arith, same) in
    inl (
      k,
      tx_condition_failed_at-codes e codes (suc k) h ∙ rw here at failed,
      (λ i less. tx_condition_failed_at-codes e codes i h ∙ first i (omega (arith, less, here))),
      map_dynamo_tx_error-codes e codes (some (suc k)) h found,
    )

-- Create reports that no node port is available exactly for a canceled transaction whose first
-- failed condition is the one of a port, at a position after 0; every other error, one where the
-- condition of the stack's own row (position 0) fails among them, is passed on.
pub map_dynamo_tx_error_cases :
    (e : Error)
    → ((j : ℕ) × (tx_condition_failed_at e (suc j) ≡ true)
        × ((i : ℕ) → i < suc j → tx_condition_failed_at e i ≡ false)
        × (map_dynamo_tx_error e ≡ sentinel no_available_node_port))
      ⊎ ((map_dynamo_tx_error e ≡ e)
          × ((tx_condition_failed_at e 0 ≡ true) ⊎ ((i : ℕ) → tx_condition_failed_at e i ≡ false)))
unfolding map_dynamo_tx_error tx_condition_failed_at
map_dynamo_tx_error_cases e = elim (Option-cases (cancellation_codes e)) [
  | inl uncanceled ↦ inr (
    (rw (uncanceled, map_dynamo_tx_error) refl),
    inr (λ i. rw (uncanceled, tx_condition_failed_at) refl),
  )
  | inr (codes, canceled) ↦ canceled_cases e codes canceled (failed_at 0 codes) refl
]
