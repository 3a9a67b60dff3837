-- ===== src/Http/Access.antt =====
-- Who reaches a handler behind APIKeyAuth of internal/http/middleware/api_key.go.
use container_provisioner_k.Base.{
  true, false, ◌||◌, not, ◌≡◌, ◌≢◌, refl, ◌⊎◌, inl, inr, Bool-cases, arith, ◌==◌, string_eq,
}
use container_provisioner_k.Base.Text.{trim_space}
use container_provisioner_k.Config.{ApiKeyConfig}
use container_provisioner_k.Http.{
  HttpHandler, Response, Request, has_prefix, api_key_auth, provided_key, json, error_body,
}

-- The header or the query presents the configured key, which is not blank.
abbrev Presents : ApiKeyConfig → Request → Type 0
Presents cfg req =
    (trim_space cfg.value ≢ "")
    × ((trim_space (req.header "X-API-KEY") ≡ trim_space cfg.value)
        ⊎ (trim_space (req.query "api_key") ≡ trim_space cfg.value))

-- The handler has run, which it may, or the request was answered 401 or 500 without any effect.
abbrev pub IsGuarded : {W : Type 0} → ApiKeyConfig → Request → HttpHandler W → W → Type 0
IsGuarded cfg req next w =
    ((api_key_auth cfg req next w ≡ next w)
      × ((has_prefix req.path "/dashboard" ≡ true) ⊎ (cfg.enabled ≡ false) ⊎ Presents cfg req))
    ⊎ ((cfg.enabled ≡ true)
        × (r : Response) × ((r.status ≡ 401) ⊎ (r.status ≡ 500))
        × (api_key_auth cfg req next w ≡ (r, w)))

provided_key-source :
    (req : Request)
    → (provided_key req ≡ trim_space (req.header "X-API-KEY"))
      ⊎ (provided_key req ≡ trim_space (req.query "api_key"))
provided_key-source req = elim (Bool-cases (trim_space (req.header "X-API-KEY") == "")) [
  | inl b ↦ inr (rw b refl)
  | inr b ↦ inl (rw b refl)
]

accepted-Presents :
    (cfg : ApiKeyConfig) (req : Request)
    → (trim_space cfg.value == "") ≡ false
    → (provided_key req == "" || not (provided_key req == trim_space cfg.value)) ≡ false
    → Presents cfg req
accepted-Presents cfg req named accepted = (
  ground (arith, string_eq.beq_iff (trim_space cfg.value) ""),
  ground
      (arith, string_eq.beq_iff (provided_key req) (trim_space cfg.value), provided_key-source req),
)

-- Outside the paths that begin with /dashboard, and with the API key enabled, a handler only runs for
-- a request that presents the configured, non-blank key; any other request is answered 401 or 500
-- and has no effect.
pub api_key_auth-IsGuarded :
    {W : Type 0} (cfg : ApiKeyConfig) (req : Request) (next : HttpHandler W) (w : W)
    → IsGuarded cfg req next w
unfolding api_key_auth
api_key_auth-IsGuarded cfg req next w = elim (Bool-cases (has_prefix req.path "/dashboard")) [
  | inl a ↦ inl (rw a refl, inl a)
  | inr a ↦ elim (Bool-cases cfg.enabled) [
    | inr b ↦ inl (rw (a, b) refl, inr (inl b))
    | inl b ↦ elim (Bool-cases (trim_space cfg.value == "")) [
      | inl d ↦
          inr (b, json 500 (error_body "api key is not configured"), inr refl, rw (a, b, d) refl)
      | inr d ↦
          elim (Bool-cases
            (provided_key req == "" || not (provided_key req == trim_space cfg.value))) [
              | inl e ↦
                  inr (b, json 401 (error_body "invalid api key"), inl refl, rw (a, b, d, e) refl)
              | inr e ↦ inl (rw (a, b, d, e) refl, inr (inr (accepted-Presents cfg req d e)))
            ]
    ]
  ]
]
