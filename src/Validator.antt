-- ===== src/Validator.antt =====
-- internal/stack/validator.go: which pod specs and target ports are accepted, what the accepted pod
-- is rewritten to, and what it is accounted for.
pub mod Inversion
pub mod Keys
pub mod Targets
pub mod Hardening
pub mod Accounting
pub mod Refusals
use Prim.Native.String.{◌++◌}
use container_provisioner_k.Base.{
  ℕ, suc, String, Bool, true, false, ◌&&◌, ◌||◌, not, Option, none, some, List, [], ◌∷◌, map,
  if◌then◌else◌, ltb, ◌==◌, nat_eq, string_eq, length,
}
use container_provisioner_k.Base.Int.{ℤ, pos, ltb_ℤ, add64, int_eq}
use container_provisioner_k.Base.Dict.{Dict, lookup}
use container_provisioner_k.Base.Text.{to_upper, to_lower, trim_space, format_int}
use container_provisioner_k.Errors.{
  Result, ok, err, ◌>>=◌, ◌>>◌, refuse_if, because, invalid_input, pod_spec_invalid,
}
use container_provisioner_k.Models.{PortSpec}
use container_provisioner_k.Pod.{
  Pod, Container, ContainerPort, Volume, VolumeProjection, SecurityContext, ResourceRequirements,
  KubeLibrary,
}

pub record ValidationResult : Type 0 where
  pub sanitized_yaml : String
  pub requested_milli : ℤ
  pub requested_bytes : ℤ
  pub target_ports : List PortSpec

abbrev pub max_target_ports : ℕ
max_target_ports = 24

abbrev pub max64 : ℤ → ℤ → ℤ
max64 a b = if ltb_ℤ b a then a else b

abbrev pub is_set {ℓ} : {A : Type ℓ} → Option A → Bool
is_set none = false
is_set (some _) = true

abbrev pub out_of_range : ℤ → Bool
out_of_range port = ltb_ℤ port (pos 1) || ltb_ℤ (pos 65535) port

unfoldable pub normalize_protocol : String → Result String
normalize_protocol proto =
    let upper = to_upper (trim_space proto) in
    if upper == ""
    then err (because invalid_input ": protocol is required")
    else if not (upper == "TCP") && not (upper == "UDP")
    then err (because invalid_input ": protocol must be TCP or UDP")
    else ok upper

unfoldable pub port_key : ℤ → String → String
port_key port proto = format_int port ++ ("/" ++ to_upper proto)

-- `_, exists := set[key]`
unfoldable pub has_key : String → List String → Bool
has_key key [] = false
has_key key (k ∷ ks) = if k == key then true else has_key key ks

-- The loop over targetPorts, with the keys seen so far.
unfoldable pub normalize_targets : List String → List PortSpec → Result (List PortSpec)
normalize_targets seen [] = ok []
normalize_targets seen (tp ∷ tps) = do
  refuse_if (out_of_range tp.container_port) (because invalid_input ": target_port is out of range")
  proto ← normalize_protocol tp.protocol
  refuse_if (has_key (port_key tp.container_port proto) seen)
      (because invalid_input ": duplicate target_port entry")
  rest ← normalize_targets (port_key tp.container_port proto ∷ seen) tps
  ok (record { container_port = tp.container_port; protocol = proto } ∷ rest)

unfoldable pub has_token : List VolumeProjection → Bool
has_token [] = false
has_token (src ∷ srcs) = is_set src.service_account_token || has_token srcs

unfoldable pub validate_volumes_no_host_access : List Volume → Result (Unit {0})
validate_volumes_no_host_access [] = ok tt
validate_volumes_no_host_access (v ∷ vols) = do
  refuse_if (is_set v.host_path) (because pod_spec_invalid ": hostPath volume is forbidden")
  refuse_if (elim v.projected [ none ↦ false | some sources ↦ has_token sources ])
      (because pod_spec_invalid ": projected serviceAccountToken is forbidden")
  validate_volumes_no_host_access vols

unfoldable pub validate_container_port : ContainerPort → Result (Unit {0})
validate_container_port p = do
  refuse_if (out_of_range p.container_port) (because pod_spec_invalid ": invalid container port")
  refuse_if (not (p.host_port == pos 0) || not (p.host_ip == ""))
      (because pod_spec_invalid ": hostPort/hostIP are forbidden")
  refuse_if (not (p.protocol == "") && not (p.protocol == "TCP") && not (p.protocol == "UDP"))
      (because pod_spec_invalid ": protocol must be TCP or UDP")

abbrev pub exposed_key : ContainerPort → String
exposed_key p = port_key p.container_port (if p.protocol == "" then "TCP" else p.protocol)

-- The loop over one container's ports: how many there are so far, and their keys.
unfoldable pub collect_ports : ℕ → List String → List ContainerPort → Result (ℕ × List String)
collect_ports count keys [] = ok (count, keys)
collect_ports count keys (p ∷ ps) = do
  validate_container_port p
  collect_ports (suc count) (exposed_key p ∷ keys) ps

abbrev pub hardened_container_security_context : SecurityContext
hardened_container_security_context = record {
  privileged = some false;
  allow_privilege_escalation = some false;
  seccomp_profile = some "RuntimeDefault";
}

-- The loop over normalizedTargets at the end.
unfoldable pub targets_exposed : List String → List PortSpec → Result (Unit {0})
targets_exposed keys [] = ok tt
targets_exposed keys (tp ∷ tps) = do
  refuse_if (not (has_key (port_key tp.container_port tp.protocol) keys))
      (because pod_spec_invalid ": target_port must exist in container ports")
  targets_exposed keys tps

module _ {Q : Type 0} where
  unfoldable pub validate_container_basics : Container Q → Result (Unit {0})
  validate_container_basics c = do
    refuse_if (trim_space c.name == "") (because pod_spec_invalid ": container name is required")
    refuse_if (trim_space c.image == "") (because pod_spec_invalid ": container image is required")
    refuse_if (is_set c.security_context)
        (because pod_spec_invalid ": container securityContext is forbidden in input")

  -- The checks on the pod before its containers are looked at.
  unfoldable pub validate_pod_fields : Pod Q → Result (Unit {0})
  validate_pod_fields pod = do
    refuse_if (not (to_lower pod.kind == "pod")) (because pod_spec_invalid ": kind must be Pod")
    refuse_if (pod.host_network || pod.host_pid || pod.host_ipc)
        (because pod_spec_invalid ": hostNetwork/hostPID/hostIPC are forbidden")
    refuse_if (is_set pod.security_context)
        (because pod_spec_invalid ": pod securityContext is forbidden in input")
    refuse_if (not (pod.service_account_name == "") || not (pod.deprecated_service_account == ""))
        (because pod_spec_invalid ": serviceAccount is forbidden in input")
    refuse_if (not (pod.node_name == "") || is_set pod.runtime_class_name)
        (because pod_spec_invalid ": nodeName/runtimeClassName are forbidden in input")
    refuse_if (ltb 0 (length pod.ephemeral_containers))
        (because pod_spec_invalid ": ephemeralContainers are forbidden")
    validate_volumes_no_host_access pod.volumes
    refuse_if (length pod.containers == 0)
        (because pod_spec_invalid ": at least one container is required")

  abbrev pub harden : Container Q → Container Q
  harden c = record c { security_context = some hardened_container_security_context }

  -- The assignments to the pod before it is marshalled.
  unfoldable pub sanitize : Pod Q → Pod Q
  sanitize pod = record pod {
    restart_policy = "Never";
    automount_service_account_token = some false;
    enable_service_links = some false;
    security_context = some (record { seccomp_profile = some "RuntimeDefault" });
    init_containers = map harden pod.init_containers;
    containers = map harden pod.containers;
  }

-- The running totals of the loop over the containers.
pub record Totals : Type 0 where
  pub sum_milli : ℤ
  pub sum_bytes : ℤ
  pub port_count : ℕ
  pub pod_port_set : List String

abbrev pub no_totals : Totals
no_totals = record { sum_milli = pos 0; sum_bytes = pos 0; port_count = 0; pod_port_set = [] }

abbrev pub next_totals : Totals → ℤ × ℤ → ℕ × List String → Totals
next_totals t amount exposed = record {
  sum_milli = add64 t.sum_milli amount.0;
  sum_bytes = add64 t.sum_bytes amount.1;
  port_count = exposed.0;
  pod_port_set = exposed.1;
}

module _ {Q : Type 0} (lib : KubeLibrary Q) where
  unfoldable pub get_milli : Dict String Q → String → ℤ
  get_milli list name = elim (lookup name list) [ none ↦ pos 0 | some q ↦ lib.milli_value q ]

  unfoldable pub get_bytes : Dict String Q → String → ℤ
  get_bytes list name = elim (lookup name list) [ none ↦ pos 0 | some q ↦ lib.value q ]

  unfoldable pub normalize_and_validate_resources : ResourceRequirements Q → Result (ℤ × ℤ)
  normalize_and_validate_resources r =
      let cpu_milli = max64 (get_milli r.requests "cpu") (get_milli r.limits "cpu") in
      let mem_bytes = max64 (get_bytes r.requests "memory") (get_bytes r.limits "memory") in
      if not (ltb_ℤ (pos 0) cpu_milli) || not (ltb_ℤ (pos 0) mem_bytes)
      then err (because pod_spec_invalid ": request/limit must be set")
      else ok (cpu_milli, mem_bytes)

  unfoldable pub build_equal_resources : ℤ → ℤ → ResourceRequirements Q
  build_equal_resources cpu_milli mem_bytes =
      let list =
        ("cpu", lib.new_milli_quantity cpu_milli) ∷ ("memory", lib.new_quantity mem_bytes) ∷ [] in
      record { requests = list; limits = list }

  -- The loop over the init containers, with the largest request so far.
  unfoldable pub validate_init_containers :
      ℤ → ℤ → List (Container Q) → Result (List (Container Q) × ℤ × ℤ)
  validate_init_containers max_milli max_bytes [] = ok ([], max_milli, max_bytes)
  validate_init_containers max_milli max_bytes (c ∷ cs) = do
    validate_container_basics c
    refuse_if (ltb 0 (length c.ports))
        (because pod_spec_invalid ": initContainer ports are forbidden")
    amount ← normalize_and_validate_resources c.resources
    rest ← validate_init_containers (max64 amount.0 max_milli) (max64 amount.1 max_bytes) cs
    ok (record c { resources = build_equal_resources amount.0 amount.1 } ∷ rest.0, rest.1, rest.2)

  -- The loop over the containers, with the totals so far.
  unfoldable pub validate_containers :
      Totals → List (Container Q) → Result (List (Container Q) × Totals)
  validate_containers t [] = ok ([], t)
  validate_containers t (c ∷ cs) = do
    validate_container_basics c
    amount ← normalize_and_validate_resources c.resources
    exposed ← collect_ports t.port_count t.pod_port_set c.ports
    rest ← validate_containers (next_totals t amount exposed) cs
    ok (record c { resources = build_equal_resources amount.0 amount.1 } ∷ rest.0, rest.1)

  abbrev pub or_invalid {ℓ} : {A : Type ℓ} → Option A → String → Result A
  or_invalid none text = err (because pod_spec_invalid text)
  or_invalid (some a) text = ok a

  unfoldable pub validate_pod_spec : String → List PortSpec → Result ValidationResult
  validate_pod_spec raw target_ports = do
    refuse_if (trim_space raw == "") (because pod_spec_invalid ": pod_spec is required")
    refuse_if (length target_ports == 0) (because invalid_input ": target_port is required")
    refuse_if (ltb max_target_ports (length target_ports))
        (because invalid_input ": target_port exceeds limit (max 24)")
    normalized ← normalize_targets [] target_ports
    pod ← or_invalid (lib.unmarshal raw) ": yaml parse failed"
    validate_pod_fields pod
    inits ← validate_init_containers (pos 0) (pos 0) pod.init_containers
    mains ← validate_containers no_totals pod.containers
    refuse_if (mains.1.port_count == 0)
        (because pod_spec_invalid ": at least one exposed container port is required")
    targets_exposed mains.1.pod_port_set normalized
    let req_milli = max64 mains.1.sum_milli inits.1
    let req_bytes = max64 mains.1.sum_bytes inits.2
    refuse_if (not (ltb_ℤ (pos 0) req_milli) || not (ltb_ℤ (pos 0) req_bytes))
        (because pod_spec_invalid ": resources are required")
    yaml ←
        or_invalid
          (lib.marshal (sanitize (record pod { init_containers = inits.0; containers = mains.0 })))
          ": yaml marshal failed"
    ok (record {
      sanitized_yaml = yaml;
      requested_milli = req_milli;
      requested_bytes = req_bytes;
      target_ports = normalized;
    })
