-- ===== src/Config/Variable.antt =====
-- One variable of the environment, as internal/config/config.go reads it.
use container_provisioner_k.Base.{
  String, Option, some, List, [], ◌∷◌, ◌==◌, string_eq, ◌≡◌, ◌≢◌, refl, sym, inl, inr, Bool-cases,
  Option-cases, eq_iff, arith,
}
use container_provisioner_k.Config.Load.{Env, get_env, get_parsed}

-- The value is the default where the variable is not set, and what it parses to where it is.
abbrev pub Reads : {A : Type 0} → (String → Option A) → Env → String → A → A → Type 0
Reads parse env key default value =
    (env key ≡ "" → value ≡ default) × (env key ≢ "" → parse (env key) ≡ some value)

cons-nil {ℓ} : {A : Type ℓ} {a : A} {rest : List A} → (a ∷ rest) ≢ []
cons-nil h = cc

some_inj {ℓ} : {A : Type ℓ} {a b : A} → some a ≡ some b → a ≡ b
some_inj h = cc

pub get_env-Reads :
    (env : Env) (key default : String) → Reads some env key default (get_env env key default)
get_env-Reads env key default = elim (Bool-cases (env key == "")) [
  | inl e ↦ rw e ((λ _. refl), (λ ne. absurd (ne ((eq_iff (env key) "").0 e))))
  | inr e ↦ rw e ((λ same. absurd (ground (arith, eq_iff (env key) "", same))), (λ _. refl))
]

pub Reads-get_env :
    (env : Env) (key default : String) {value : String}
    → Reads some env key default value
    → get_env env key default ≡ value
Reads-get_env env key default v = elim (Bool-cases (env key == "")) [
  | inl e ↦ rw e (sym (v.0 ((eq_iff (env key) "").0 e)))
  | inr e ↦ rw e (some_inj (v.1 (λ same. absurd (ground (arith, eq_iff (env key) "", same)))))
]

pub get_parsed-Reads :
    {A : Type 0} (parse : String → Option A) (refusal : String) (env : Env) (key : String)
    (default : A)
    → (get_parsed parse refusal env key default).1 ≡ []
    → Reads parse env key default (get_parsed parse refusal env key default).0
unfolding get_parsed
get_parsed-Reads parse refusal env key default h = elim (Bool-cases (env key == "")) [
  | inl e ↦ rw e ((λ _. refl), (λ ne. absurd (ne ((eq_iff (env key) "").0 e))))
  | inr e ↦ elim (Option-cases (parse (env key))) [
    | inl p ↦ absurd (cons-nil (rw (e, p) at h))
    | inr (a, p) ↦
        rw (e, p) ((λ same. absurd (ground (arith, eq_iff (env key) "", same))), (λ _. refl))
  ]
]

pub Reads-get_parsed :
    {A : Type 0} (parse : String → Option A) (refusal : String) (env : Env) (key : String)
    (default : A) {value : A}
    → Reads parse env key default value
    → get_parsed parse refusal env key default ≡ (value, [])
unfolding get_parsed
Reads-get_parsed parse refusal env key default {value} v = elim (Bool-cases (env key == "")) [
  | inl e ↦ rw (e, v.0 ((eq_iff (env key) "").0 e)) refl
  | inr e ↦ rw (e, v.1 (λ same. absurd (ground (arith, eq_iff (env key) "", same)))) refl
]
