-- ===== src/Validator/Refusals.antt =====
-- How internal/stack/validator.go refuses input.
use container_provisioner_k.Base.{
  ℕ, String, true, List, [], ◌∷◌, ◌≡◌, ◌⊎◌, inl, inr, arith, suc, Option-cases,
}
use container_provisioner_k.Base.Int.{ℤ, pos}
use container_provisioner_k.Errors.{Error, err, is_error, invalid_input, pod_spec_invalid}
use container_provisioner_k.Op.{Result-cases}
use container_provisioner_k.Models.{PortSpec}
use container_provisioner_k.Pod.{
  Pod, Container, ContainerPort, Volume, KubeLibrary, ResourceRequirements,
}
use container_provisioner_k.Validator.{
  Totals, no_totals, next_totals, port_key, exposed_key, max64, collect_ports,
  validate_container_port, validate_containers, validate_init_containers, validate_pod_fields,
  validate_volumes_no_host_access, validate_pod_spec, validate_container_basics,
  normalize_and_validate_resources, normalize_targets, normalize_protocol, targets_exposed,
}

-- How the service refuses input: as its own errors InvalidInput or PodSpecInvalid.
abbrev pub IsRefusal : Error → Type 0
IsRefusal e = (is_error invalid_input e ≡ true) ⊎ (is_error pod_spec_invalid e ≡ true)

normalize_protocol-IsRefusal : (p : String) (e : Error) → normalize_protocol p ≡ err e → IsRefusal e
unfolding normalize_protocol
normalize_protocol-IsRefusal p e h = ground arith

normalize_targets-IsRefusal :
    (seen : List String) (tps : List PortSpec) (e : Error)
    → normalize_targets seen tps ≡ err e
    → IsRefusal e
unfolding normalize_targets
normalize_targets-IsRefusal seen [] e h = absurd (ground arith)
normalize_targets-IsRefusal seen (tp ∷ tps) e h =
    elim (Result-cases (normalize_protocol tp.protocol)) [
      | inr (x, f) ↦ ground (arith, normalize_protocol-IsRefusal tp.protocol x f)
      | inl (q, f) ↦
          ground (arith, normalize_targets-IsRefusal (port_key tp.container_port q ∷ seen) tps e)
    ]

volumes-IsRefusal :
    (vs : List Volume) (e : Error) → validate_volumes_no_host_access vs ≡ err e → IsRefusal e
unfolding validate_volumes_no_host_access
volumes-IsRefusal [] e h = absurd (ground arith)
volumes-IsRefusal (v ∷ vs) e h = ground (arith, volumes-IsRefusal vs e)

collect_ports-IsRefusal :
    (n : ℕ) (keys : List String) (ps : List ContainerPort) (e : Error)
    → collect_ports n keys ps ≡ err e
    → IsRefusal e
unfolding collect_ports validate_container_port
collect_ports-IsRefusal n keys [] e h = absurd (ground arith)
collect_ports-IsRefusal n keys (p ∷ ps) e h =
    ground (arith, collect_ports-IsRefusal (suc n) (exposed_key p ∷ keys) ps e)

targets_exposed-IsRefusal :
    (keys : List String) (tps : List PortSpec) (e : Error)
    → targets_exposed keys tps ≡ err e
    → IsRefusal e
unfolding targets_exposed
targets_exposed-IsRefusal keys [] e h = absurd (ground arith)
targets_exposed-IsRefusal keys (tp ∷ tps) e h = ground (arith, targets_exposed-IsRefusal keys tps e)

module _ {Q : Type 0} (lib : KubeLibrary Q) where
  basics-IsRefusal :
      (c : Container Q) (e : Error) → validate_container_basics c ≡ err e → IsRefusal e
  unfolding validate_container_basics
  basics-IsRefusal c e h = ground arith

  resources-IsRefusal :
      (r : ResourceRequirements Q) (e : Error)
      → normalize_and_validate_resources lib r ≡ err e
      → IsRefusal e
  unfolding normalize_and_validate_resources
  resources-IsRefusal r e h = ground arith

  fields-IsRefusal : (pod : Pod Q) (e : Error) → validate_pod_fields pod ≡ err e → IsRefusal e
  unfolding validate_pod_fields
  fields-IsRefusal pod e h = ground (arith, volumes-IsRefusal pod.volumes e)

  inits-IsRefusal :
      (m b : ℤ) (cs : List (Container Q)) (e : Error)
      → validate_init_containers lib m b cs ≡ err e
      → IsRefusal e
  unfolding validate_init_containers
  inits-IsRefusal m b [] e h = absurd (ground arith)
  inits-IsRefusal m b (c ∷ cs) e h =
      elim (Result-cases (normalize_and_validate_resources lib c.resources)) [
        | inr (x, f) ↦ ground (arith, basics-IsRefusal c e, resources-IsRefusal c.resources e)
        | inl (amount, f) ↦ ground (
          arith,
          basics-IsRefusal c e,
          inits-IsRefusal (max64 amount.0 m) (max64 amount.1 b) cs e,
        )
      ]

  mains-IsRefusal :
      (t : Totals) (cs : List (Container Q)) (e : Error)
      → validate_containers lib t cs ≡ err e
      → IsRefusal e
  unfolding validate_containers
  mains-IsRefusal t [] e h = absurd (ground arith)
  mains-IsRefusal t (c ∷ cs) e h =
      elim (Result-cases (normalize_and_validate_resources lib c.resources)) [
        | inr (x, f) ↦ ground (arith, basics-IsRefusal c e, resources-IsRefusal c.resources e)
        | inl (amount, f) ↦
            elim (Result-cases (collect_ports t.port_count t.pod_port_set c.ports)) [
              | inr (x, g) ↦ ground (
                arith,
                basics-IsRefusal c e,
                collect_ports-IsRefusal t.port_count t.pod_port_set c.ports e,
              )
              | inl (exposed, g) ↦
                  ground (
                    arith,
                    basics-IsRefusal c e,
                    mains-IsRefusal (next_totals t amount exposed) cs e,
                  )
            ]
      ]

  -- Every way in which a pod spec or its target ports are refused is the error InvalidInput or the
  -- error PodSpecInvalid.
  pub validate_pod_spec-IsRefusal :
      (raw : String) (tps : List PortSpec) (e : Error)
      → validate_pod_spec lib raw tps ≡ err e
      → IsRefusal e
  unfolding validate_pod_spec
  validate_pod_spec-IsRefusal raw tps e h = elim (Option-cases (lib.unmarshal raw)) [
    | inl p ↦ ground (arith, normalize_targets-IsRefusal [] tps e)
    | inr (pod, p) ↦ elim (Result-cases (normalize_targets [] tps)) [
      | inr (x, q) ↦ ground (arith, normalize_targets-IsRefusal [] tps e)
      | inl (out, q) ↦
          elim (Result-cases (validate_init_containers lib (pos 0) (pos 0) pod.init_containers)) [
            | inr (x, is) ↦ ground (
              arith,
              fields-IsRefusal pod e,
              inits-IsRefusal (pos 0) (pos 0) pod.init_containers e,
            )
            | inl (inits, is) ↦
                elim (Result-cases (validate_containers lib no_totals pod.containers)) [
                  | inr (x, ms) ↦
                      ground
                        (arith, fields-IsRefusal pod e, mains-IsRefusal no_totals pod.containers e)
                  | inl (mains, ms) ↦ ground (
                    arith,
                    fields-IsRefusal pod e,
                    targets_exposed-IsRefusal mains.1.pod_port_set out e,
                  )
                ]
          ]
    ]
  ]
