-- ===== src/Grpc/Auth.antt =====
-- internal/grpcserver/auth.go: the interceptor that asks for an API key. The metadata of a call is
-- what its Get returns for a key, or none where the context carries no metadata.
use container_provisioner_k.Base.{
  String, ◌||◌, not, Option, none, some, List, [], ◌∷◌, ◌≡◌, ◌≢◌, refl, ◌⊎◌, inl, inr, true, false,
  arith, Bool-cases, if◌then◌else◌, ◌==◌, string_eq,
}
use container_provisioner_k.Base.Text.{trim_space}
use container_provisioner_k.Config.{ApiKeyConfig}
use container_provisioner_k.Grpc.{Handler, refused, GrpcError, unauthenticated, status_error}

abbrev pub first_header : (String → List String) → String → String
first_header md key = elim (md key) [ [] ↦ "" | value ∷ values ↦ value ]

-- The key that the metadata presents.
unfoldable pub presented_key : (String → List String) → String
presented_key md =
    let key = first_header md "x-api-key" in
    trim_space (if key == "" then first_header md "api_key" else key)

module _ {W A : Type 0} where
  unfoldable pub check_key : String → String → Handler W A → Handler W A
  check_key key expected handler w =
      if key == ""
      then (status_error unauthenticated "api key is required", w)
      else (if expected == "" || not (key == expected)
          then (status_error unauthenticated "invalid api key", w)
          else handler w)

  unfoldable pub api_key_unary_interceptor :
      ApiKeyConfig → Option (String → List String) → Handler W A → Handler W A
  api_key_unary_interceptor cfg md handler w = if not cfg.enabled then handler w else elim md [
    | none ↦ (status_error unauthenticated "api key is required", w)
    | some get ↦ check_key (presented_key get) (trim_space cfg.value) handler w
  ]

-- One of the two headers presents the configured key, which is not blank.
abbrev pub IsAuthorized : ApiKeyConfig → Option (String → List String) → Type 0
IsAuthorized cfg none = ⊥
IsAuthorized cfg (some get) =
    (trim_space cfg.value ≢ "")
    × ((trim_space (first_header get "x-api-key") ≡ trim_space cfg.value)
        ⊎ (trim_space (first_header get "api_key") ≡ trim_space cfg.value))

-- The interceptor has called the handler, which it may, or refused the call without any effect.
abbrev pub IsGuarded :
    {W A : Type 0} → ApiKeyConfig → Option (String → List String) → Handler W A → W → Type 0
IsGuarded cfg md handler w =
    ((api_key_unary_interceptor cfg md handler w ≡ handler w)
      × ((cfg.enabled ≡ false) ⊎ IsAuthorized cfg md))
    ⊎ ((cfg.enabled ≡ true)
        × (e : GrpcError) × (e.code ≡ unauthenticated)
        × (api_key_unary_interceptor cfg md handler w ≡ (refused e, w)))

presented_key-source :
    (get : String → List String)
    → (presented_key get ≡ trim_space (first_header get "x-api-key"))
      ⊎ (presented_key get ≡ trim_space (first_header get "api_key"))
unfolding presented_key
presented_key-source get = elim (Bool-cases (first_header get "x-api-key" == "")) [
  | inl b ↦ inr (rw b refl)
  | inr b ↦ inl (rw b refl)
]

accepted-IsAuthorized :
    (cfg : ApiKeyConfig) (get : String → List String)
    → (trim_space cfg.value == "" || not (presented_key get == trim_space cfg.value)) ≡ false
    → IsAuthorized cfg (some get)
accepted-IsAuthorized cfg get d = (
  ground (arith, string_eq.beq_iff (trim_space cfg.value) ""),
  ground (
    arith,
    string_eq.beq_iff (presented_key get) (trim_space cfg.value),
    presented_key-source get,
  ),
)

-- With the API key enabled a handler only runs for a call that presents the configured, non-blank
-- key; any other call is refused as Unauthenticated and has no effect.
pub interceptor-IsGuarded :
    {W A : Type 0} (cfg : ApiKeyConfig) (md : Option (String → List String)) (handler : Handler W A)
    (w : W)
    → IsGuarded cfg md handler w
unfolding api_key_unary_interceptor check_key
interceptor-IsGuarded cfg none handler w = elim (Bool-cases cfg.enabled) [
  | inr b ↦ inl (rw b refl, inl b)
  | inl b ↦
      inr (b, record { code = unauthenticated; message = "api key is required" }, refl, rw b refl)
]
interceptor-IsGuarded cfg (some get) handler w = elim (Bool-cases cfg.enabled) [
  | inr b ↦ inl (rw b refl, inl b)
  | inl b ↦ elim (Bool-cases (presented_key get == "")) [
    | inl k ↦ inr (
      b,
      record { code = unauthenticated; message = "api key is required" },
      refl,
      rw (b, k) refl,
    )
    | inr k ↦
        elim (Bool-cases
          (trim_space cfg.value == "" || not (presented_key get == trim_space cfg.value))) [
            | inl d ↦ inr (
              b,
              record { code = unauthenticated; message = "invalid api key" },
              refl,
              rw (b, k, d) refl,
            )
            | inr d ↦ inl (rw (b, k, d) refl, inr (accepted-IsAuthorized cfg get d))
          ]
  ]
]
