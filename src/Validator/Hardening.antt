-- ===== src/Validator/Hardening.antt =====
-- What the pod that is provisioned looks like, whatever the input was.
use container_provisioner_k.Base.{
  ℕ, suc, String, Bool, true, false, Option, none, some, List, [], ◌∷◌, ◌≡◌, inl, inr, refl, arith,
  length, map, string_eq, eq_iff, All, ltb,
}
use container_provisioner_k.Base.Int.{ℤ, pos, int_eq, beq_ℤ_iff, ltb_ℤ}
use container_provisioner_k.Errors.{ok}
use container_provisioner_k.Op.{Result-cases}
use container_provisioner_k.Models.{PortSpec}
use container_provisioner_k.Pod.{
  Pod, Container, ContainerPort, Volume, VolumeProjection, ResourceRequirements, KubeLibrary,
}
use container_provisioner_k.Validator.{
  ValidationResult, Totals, exposed_key, max64, next_totals, no_totals, collect_ports,
  validate_container_port, validate_containers, validate_init_containers, validate_pod_fields,
  validate_volumes_no_host_access, has_token, is_set, harden, sanitize, build_equal_resources,
  validate_pod_spec, normalize_and_validate_resources,
}
use container_provisioner_k.Validator.Inversion.{validate_pod_spec-Accepted}

abbrev pub NoHostPort : ContainerPort → Type 0
NoHostPort p = (p.host_port ≡ pos 0) × (p.host_ip ≡ "")

-- No source of a projected volume is a token of a service account.
abbrev pub NoToken : Option (List VolumeProjection) → Type 0
NoToken none = Unit
NoToken (some srcs) = All (λ src. src.service_account_token ≡ none) srcs

abbrev pub NoHostVolume : Volume → Type 0
NoHostVolume v = (v.host_path ≡ none) × NoToken v.projected

module _ {Q : Type 0} (lib : KubeLibrary Q) where
  -- Equal requests and limits, both positive, for cpu and memory only.
  abbrev pub IsGuaranteed : ResourceRequirements Q → Type 0
  IsGuaranteed r =
      (cpu mem : ℤ) × (ltb_ℤ (pos 0) cpu ≡ true)
      × (ltb_ℤ (pos 0) mem ≡ true)
      × (r.requests ≡ (("cpu", lib.new_milli_quantity cpu) ∷ ("memory", lib.new_quantity mem) ∷ []))
      × (r.limits ≡ r.requests)

  pub record IsConfined (c : Container Q) : Type 0 where
    pub context :
        c.security_context
        ≡ some (record {
          privileged = some false;
          allow_privilege_escalation = some false;
          seccomp_profile = some "RuntimeDefault";
        })
    pub ports : All NoHostPort c.ports
    pub resources : IsGuaranteed c.resources

  pub record IsHardened (pod : Pod Q) : Type 0 where
    pub restart : pod.restart_policy ≡ "Never"
    pub no_token : pod.automount_service_account_token ≡ some false
    pub no_links : pod.enable_service_links ≡ some false
    pub seccomp : pod.security_context ≡ some (record { seccomp_profile = some "RuntimeDefault" })
    pub no_host : (pod.host_network ≡ false) × (pod.host_pid ≡ false) × (pod.host_ipc ≡ false)
    pub no_account : (pod.service_account_name ≡ "") × (pod.deprecated_service_account ≡ "")
    pub no_node : (pod.node_name ≡ "") × (pod.runtime_class_name ≡ none)
    pub volumes : All NoHostVolume pod.volumes
    pub init_containers : All IsConfined pod.init_containers
    pub containers : All IsConfined pod.containers

is_set-false {ℓ} : {A : Type ℓ} (o : Option A) → is_set o ≡ false → o ≡ none
is_set-false none h = refl
is_set-false (some a) h = absurd (ground arith)

tokens_sound :
    (srcs : List VolumeProjection)
    → has_token srcs ≡ false
    → All (λ src. src.service_account_token ≡ none) srcs
unfolding has_token
tokens_sound [] h = tt
tokens_sound (src ∷ srcs) h =
    (is_set-false src.service_account_token (ground arith), tokens_sound srcs (ground arith))

projected_sound :
    (p : Option (List VolumeProjection))
    → Path Bool (elim p [ none ↦ false | some srcs ↦ has_token srcs ]) false
    → NoToken p
projected_sound none h = tt
projected_sound (some srcs) h = tokens_sound srcs h

volumes_sound :
    (vs : List Volume) → validate_volumes_no_host_access vs ≡ ok tt → All NoHostVolume vs
unfolding validate_volumes_no_host_access
volumes_sound [] h = tt
volumes_sound (v ∷ vs) h = (
  (is_set-false v.host_path (ground arith), projected_sound v.projected (ground arith)),
  volumes_sound vs (ground arith),
)

collect_ports_sound :
    (n : ℕ) (keys : List String) (ps : List ContainerPort) (out : ℕ × List String)
    → collect_ports n keys ps ≡ ok out
    → All NoHostPort ps
unfolding collect_ports validate_container_port
collect_ports_sound n keys [] out h = tt
collect_ports_sound n keys (p ∷ ps) out h = (
  ground (arith, beq_ℤ_iff p.host_port (pos 0), eq_iff p.host_ip ""),
  collect_ports_sound (suc n) (exposed_key p ∷ keys) ps out (ground arith),
)

no_ports : (ps : List ContainerPort) → ltb 0 (length ps) ≡ false → All NoHostPort ps
no_ports [] h = tt
no_ports (p ∷ ps) h = absurd (ground arith)

module _ {Q : Type 0} (lib : KubeLibrary Q) where
  -- A container as the loops leave it, once its amounts have been accepted.
  abbrev with_amount : Container Q → ℤ × ℤ → Container Q
  with_amount c amount = record c { resources = build_equal_resources lib amount.0 amount.1 }

  amount-positive :
      (r : ResourceRequirements Q) (amount : ℤ × ℤ)
      → normalize_and_validate_resources lib r ≡ ok amount
      → (ltb_ℤ (pos 0) amount.0 ≡ true) × (ltb_ℤ (pos 0) amount.1 ≡ true)
  unfolding normalize_and_validate_resources
  amount-positive r amount h = ground arith

  harden-IsConfined :
      (c : Container Q) (amount : ℤ × ℤ)
      → normalize_and_validate_resources lib c.resources ≡ ok amount
      → All NoHostPort c.ports
      → IsConfined lib (harden (with_amount c amount))
  harden-IsConfined c amount a ports = record {
    context = refl;
    ports = ports;
    resources =
        let (cpu, mem) = amount-positive c.resources amount a in
        (
          amount.0,
          amount.1,
          cpu,
          mem,
          unfold build_equal_resources in refl,
          unfold build_equal_resources in refl,
        );
  }

  inits-IsConfined :
      (mm mb : ℤ) (cs : List (Container Q)) (out : List (Container Q) × ℤ × ℤ)
      → validate_init_containers lib mm mb cs ≡ ok out
      → All (IsConfined lib) (map harden out.0)
  unfolding validate_init_containers
  inits-IsConfined mm mb [] out h = let same : out.0 ≡ [] = ground arith in rw same tt
  inits-IsConfined mm mb (c ∷ cs) out h =
      elim (Result-cases (normalize_and_validate_resources lib c.resources)) [
        | inr (x, e) ↦ absurd (ground arith)
        | inl (amount, a) ↦
            elim (Result-cases
              (validate_init_containers lib (max64 amount.0 mm) (max64 amount.1 mb) cs)) [
                | inr (x, e) ↦ absurd (ground arith)
                | inl (rest, e) ↦
                    let same : out.0 ≡ with_amount c amount ∷ rest.0 = ground arith in
                    rw same (
                      harden-IsConfined c amount a (no_ports c.ports (ground arith)),
                      inits-IsConfined (max64 amount.0 mm) (max64 amount.1 mb) cs rest e,
                    )
              ]
      ]

  mains-IsConfined :
      (t : Totals) (cs : List (Container Q)) (out : List (Container Q) × Totals)
      → validate_containers lib t cs ≡ ok out
      → All (IsConfined lib) (map harden out.0)
  unfolding validate_containers
  mains-IsConfined t [] out h = let same : out.0 ≡ [] = ground arith in rw same tt
  mains-IsConfined t (c ∷ cs) out h =
      elim (Result-cases (normalize_and_validate_resources lib c.resources)) [
        | inr (x, e) ↦ absurd (ground arith)
        | inl (amount, a) ↦
            elim (Result-cases (collect_ports t.port_count t.pod_port_set c.ports)) [
              | inr (x, e) ↦ absurd (ground arith)
              | inl (exposed, e) ↦
                  elim (Result-cases (validate_containers lib (next_totals t amount exposed) cs)) [
                    | inr (x, f) ↦ absurd (ground arith)
                    | inl (rest, f) ↦
                        let same : out.0 ≡ with_amount c amount ∷ rest.0 = ground arith in
                        rw same (
                          harden-IsConfined c amount a
                              (collect_ports_sound t.port_count t.pod_port_set c.ports exposed e),
                          mains-IsConfined (next_totals t amount exposed) cs rest f,
                        )
                  ]
            ]
      ]

  fields_sound :
      (pod : Pod Q)
      → validate_pod_fields pod ≡ ok tt
      → ((pod.host_network ≡ false) × (pod.host_pid ≡ false) × (pod.host_ipc ≡ false))
        × ((pod.service_account_name ≡ "") × (pod.deprecated_service_account ≡ ""))
        × ((pod.node_name ≡ "") × (pod.runtime_class_name ≡ none))
        × All NoHostVolume pod.volumes
  unfolding validate_pod_fields
  fields_sound pod h = (
    ground arith,
    ground (arith, eq_iff pod.service_account_name "", eq_iff pod.deprecated_service_account ""),
    (ground (arith, eq_iff pod.node_name ""), is_set-false pod.runtime_class_name (ground arith)),
    volumes_sound pod.volumes (ground arith),
  )

  -- If a pod spec is accepted, the text that is provisioned is the marshalled form of a pod that has
  -- restart policy Never, no service account token or links, a seccomp profile, no access to the
  -- host's namespaces, paths, ports or service accounts, no projected token, no chosen node or runtime class, and in each
  -- container a security context that is not privileged, allows no escalation of privilege and has a
  -- seccomp profile, and limits that equal the requests, which are positive and of cpu and memory.
  pub validate_pod_spec-IsHardened :
      (raw : String) (tps : List PortSpec) (v : ValidationResult)
      → validate_pod_spec lib raw tps ≡ ok v
      → (pod : Pod Q) × (lib.marshal pod ≡ some v.sanitized_yaml) × IsHardened lib pod
  validate_pod_spec-IsHardened raw tps v h =
      let a = validate_pod_spec-Accepted lib raw tps v h in
      let (no_host, no_account, no_node, volumes) = fields_sound a.pod a.fields in
      (
        sanitize (record a.pod { init_containers = a.inits.0; containers = a.mains.0 }),
        a.printed,
        unfold sanitize in
            record {
              restart = refl;
              no_token = refl;
              no_links = refl;
              seccomp = refl;
              no_host = no_host;
              no_account = no_account;
              no_node = no_node;
              volumes = volumes;
              init_containers =
                  inits-IsConfined (pos 0) (pos 0) a.pod.init_containers a.inits a.init_containers;
              containers = mains-IsConfined no_totals a.pod.containers a.mains a.containers;
            },
      )
