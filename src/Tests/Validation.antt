-- ===== src/Tests/Validation.antt =====
-- Runs of the validator.
use container_provisioner_k.Base.{◌<◌, ◌≡◌, refl, some, arith}
use container_provisioner_k.Base.Int.{ℤ, pos, add64}
use container_provisioner_k.Base.Text.{to_upper, to_lower, trim_space, format_int, itoa}
use container_provisioner_k.Base.Dict.{lookup}
use container_provisioner_k.Errors.{ok, err, because, pod_spec_invalid}
use container_provisioner_k.Pod.{Pod}
use container_provisioner_k.Validator
use container_provisioner_k.Validator.{ValidationResult, validate_pod_spec}
use container_provisioner_k.Validator.Hardening.{IsHardened, validate_pod_spec-IsHardened}
use container_provisioner_k.Validator.Targets.{TargetsOk, validate_pod_spec-TargetsOk}
use container_provisioner_k.Validator.Accounting
use container_provisioner_k.Validator.Accounting.{validate_pod_spec-accounting}
use container_provisioner_k.Validator.Refusals.{IsRefusal, validate_pod_spec-IsRefusal}
use container_provisioner_k.Tests.Inputs.{library, pod, targets}

abbrev accepted : ValidationResult
accepted = record {
  sanitized_yaml = "kind: Pod";
  requested_milli = pos 250;
  requested_bytes = pos 2048;
  target_ports = targets;
}

accepts : validate_pod_spec library "kind: Pod" targets ≡ ok accepted
unfolding validate_pod_spec trim_space Validator.normalize_targets Validator.normalize_protocol
    to_upper Validator.has_key Validator.validate_pod_fields to_lower
    Validator.validate_volumes_no_host_access Validator.validate_init_containers
    Validator.validate_containers Validator.validate_container_basics
    Validator.normalize_and_validate_resources Validator.get_milli lookup Validator.get_bytes
    Validator.collect_ports Validator.validate_container_port add64 format_int itoa
    Validator.build_equal_resources Validator.port_key Validator.sanitize Validator.targets_exposed
accepts = refl

refuses :
    validate_pod_spec library " " targets ≡ err (because pod_spec_invalid ": pod_spec is required")
unfolding validate_pod_spec trim_space
refuses = refl

validate_pod_spec-IsHardened_example :
    (p : Pod ℤ) × (library.marshal p ≡ some "kind: Pod") × IsHardened library p
validate_pod_spec-IsHardened_example =
    validate_pod_spec-IsHardened library "kind: Pod" targets accepted accepts

validate_pod_spec-TargetsOk_example :
    (p : Pod ℤ) × (library.unmarshal "kind: Pod" ≡ some p) × TargetsOk p targets targets
validate_pod_spec-TargetsOk_example =
    validate_pod_spec-TargetsOk library "kind: Pod" targets accepted accepts

validate_pod_spec-accounting_example :
    (pos 250 ≡ pos 250) × (pos 2048 ≡ pos 2048) × (0 < 250) × (0 < 2048)
unfolding Accounting.cpu_of Accounting.memory_of Validator.get_milli lookup Validator.get_bytes
validate_pod_spec-accounting_example =
    validate_pod_spec-accounting library "kind: Pod" targets accepted pod accepts refl (omega arith)
      (omega arith)

validate_pod_spec-IsRefusal_example : IsRefusal (because pod_spec_invalid ": pod_spec is required")
validate_pod_spec-IsRefusal_example =
    validate_pod_spec-IsRefusal library " " targets
      (because pod_spec_invalid ": pod_spec is required") refuses
