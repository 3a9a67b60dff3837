-- ===== src/Validator/Inversion.antt =====
-- What an accepted pod spec has passed.
use container_provisioner_k.Base.{
  String, true, false, some, List, [], ◌≡◌, arith, Option-cases, inl, inr, length, ltb, ◌==◌,
  nat_eq, string_eq,
}
use container_provisioner_k.Base.Int.{ℤ, pos, ltb_ℤ}
use container_provisioner_k.Errors.{ok}
use container_provisioner_k.Op.{Result-cases}
use container_provisioner_k.Models.{PortSpec}
use container_provisioner_k.Pod.{Pod, Container, KubeLibrary}
use container_provisioner_k.Validator.{
  ValidationResult, Totals, no_totals, max_target_ports, max64, normalize_targets,
  validate_pod_fields, validate_init_containers, validate_containers, targets_exposed, sanitize,
  validate_pod_spec,
}

-- The intermediate results of an accepting run, each with the check that produced it.
pub record Accepted {Q : Type 0} (lib : KubeLibrary Q) (raw : String) (tps : List PortSpec)
    (v : ValidationResult) : Type 0 where
  pub pod : Pod Q
  pub inits : List (Container Q) × ℤ × ℤ
  pub mains : List (Container Q) × Totals
  pub some_targets : (length tps == 0) ≡ false
  pub few_targets : ltb max_target_ports (length tps) ≡ false
  pub targets : normalize_targets [] tps ≡ ok v.target_ports
  pub parsed : lib.unmarshal raw ≡ some pod
  pub fields : validate_pod_fields pod ≡ ok tt
  pub init_containers : validate_init_containers lib (pos 0) (pos 0) pod.init_containers ≡ ok inits
  pub containers : validate_containers lib no_totals pod.containers ≡ ok mains
  pub exposed : targets_exposed mains.1.pod_port_set v.target_ports ≡ ok tt
  pub milli : v.requested_milli ≡ max64 mains.1.sum_milli inits.1
  pub bytes : v.requested_bytes ≡ max64 mains.1.sum_bytes inits.2
  pub milli_positive : ltb_ℤ (pos 0) v.requested_milli ≡ true
  pub bytes_positive : ltb_ℤ (pos 0) v.requested_bytes ≡ true
  pub printed :
      lib.marshal (sanitize (record pod { init_containers = inits.0; containers = mains.0 }))
      ≡ some v.sanitized_yaml

module _ {Q : Type 0} (lib : KubeLibrary Q) (raw : String) (tps : List PortSpec)
    (v : ValidationResult) where
  -- The run from the parsed pod on, once its containers have been looked at.
  Accepted-of_parts :
      (pod : Pod Q) (inits : List (Container Q) × ℤ × ℤ) (mains : List (Container Q) × Totals)
      → validate_pod_spec lib raw tps ≡ ok v
      → lib.unmarshal raw ≡ some pod
      → validate_init_containers lib (pos 0) (pos 0) pod.init_containers ≡ ok inits
      → validate_containers lib no_totals pod.containers ≡ ok mains
      → Accepted lib raw tps v
  unfolding validate_pod_spec
  Accepted-of_parts pod inits mains h parsed init_containers containers = record {
    pod = pod;
    inits = inits;
    mains = mains;
    some_targets = ground arith;
    few_targets = ground arith;
    targets = ground arith;
    parsed = parsed;
    fields = ground arith;
    init_containers = init_containers;
    containers = containers;
    exposed = ground arith;
    milli = ground arith;
    bytes = ground arith;
    milli_positive = ground arith;
    bytes_positive = ground arith;
    printed = ground arith;
  }

  pub validate_pod_spec-Accepted : validate_pod_spec lib raw tps ≡ ok v → Accepted lib raw tps v
  unfolding validate_pod_spec
  validate_pod_spec-Accepted h = elim (Option-cases (lib.unmarshal raw)) [
    | inl e ↦ absurd (ground arith)
    | inr (pod, parsed) ↦
        elim (Result-cases (validate_init_containers lib (pos 0) (pos 0) pod.init_containers)) [
          | inr (x, e) ↦ absurd (ground arith)
          | inl (inits, is) ↦
              elim (Result-cases (validate_containers lib no_totals pod.containers)) [
                | inr (x, e) ↦ absurd (ground arith)
                | inl (mains, ms) ↦ Accepted-of_parts pod inits mains h parsed is ms
              ]
        ]
  ]
