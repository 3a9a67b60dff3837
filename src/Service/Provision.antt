-- ===== src/Service/Provision.antt =====
-- Service.Create of internal/stack/service.go, with the node ports that it reserves and releases and
-- the errors that it maps.
use Prim.Native.String.{◌++◌}
use container_provisioner_k.Base.{
  ℕ, zero, suc, ◌+◌, String, Bool, true, false, ◌&&◌, ◌||◌, Option, none, some, List, [], ◌∷◌,
  ◌++◌ as append, if◌then◌else◌, ◌==◌, nat_eq, string_eq,
}
use container_provisioner_k.Base.Int.{ℤ, pos_part}
use container_provisioner_k.Base.Text.{to_lower, contains, itoa}
use container_provisioner_k.Errors.{
  Error, Result, ok, err, wrap, plain, sentinel, is_error, message_of, status_causes, StatusCause,
  cluster_saturated, pod_spec_invalid,
}
use container_provisioner_k.Op.{Op, pure, raise, lift, attempt, ◌>>=◌, ◌>>◌}
use container_provisioner_k.Models.{Time, Status, PortSpec, PortMapping, Stack, CreateInput}
use container_provisioner_k.Kubernetes.{ProvisionRequest, ProvisionResult}
use container_provisioner_k.Validator.{ValidationResult, validate_pod_spec}
use container_provisioner_k.Service.{Service, add_duration, new_stack_id}

-- isQuotaExceededMessage
unfoldable pub is_quota_exceeded_message : String → Bool
is_quota_exceeded_message msg =
    contains msg "exceeded quota" || contains msg "exceeds quota" || contains msg "resourcequota"

-- isLimitRangeExceededMessage
unfoldable pub is_limit_range_exceeded_message : String → Bool
is_limit_range_exceeded_message msg =
    contains msg "limitrange"
    || contains msg "limit range"
    || (contains msg "per container" && contains msg "limit is")
    || contains msg "must be less than or equal to"
    || contains msg "must be greater than or equal to"

-- mapProvisionError, of an error that is not nil
unfoldable pub map_provision_error : Error → Error
map_provision_error e =
    let lower_msg = to_lower (message_of e) in
    if is_error cluster_saturated e || is_error pod_spec_invalid e
    then e
    else if is_quota_exceeded_message lower_msg
    then wrap "" (sentinel cluster_saturated) (": " ++ message_of e)
    else if is_limit_range_exceeded_message lower_msg
    then wrap "" (sentinel pod_spec_invalid) (": " ++ message_of e)
    else wrap "k8s provision failed: " e ""

-- The loop over the causes in isNodePortAllocatedError.
unfoldable pub port_cause : List StatusCause → Bool
port_cause [] = false
port_cause (c ∷ cs) =
    (c.cause_type == "FieldValueInvalid"
      && contains c.field "spec.ports"
      && contains (to_lower c.message) "already allocated")
    || port_cause cs

-- isNodePortAllocatedError, of an error that is not nil
unfoldable pub is_node_port_allocated_error : Error → Bool
is_node_port_allocated_error e =
    if port_cause (status_causes e)
    then true
    else (let msg = to_lower (message_of e) in
        contains msg "provided port is already allocated" || contains msg "already allocated")

-- A bound of the port range, which the check of the configuration keeps between 1 and 65535.
abbrev pub port_bound : ℤ → ℕ
port_bound = pos_part

module _ {W Q : Type 0} (s : Service W Q) where
  unfoldable pub release_ports : List ℕ → Op W (Unit {0})
  release_ports [] = pure tt
  release_ports (p ∷ ps) = do attempt (s.repo.release_node_port p); release_ports ps

  -- The loop of reservePorts, with the mappings and the ports reserved so far.
  unfoldable pub reserve_ports :
      List PortSpec → List PortMapping → List ℕ → Op W (List PortMapping × List ℕ)
  reserve_ports [] ports reserved = pure (ports, reserved)
  reserve_ports (target ∷ targets) ports reserved = do
    r ←
        attempt (
          s.repo.reserve_node_port (port_bound s.cfg.node_port_min)
            (port_bound s.cfg.node_port_max))
    elim r [
      | err e ↦ (do release_ports reserved; raise e)
      | ok node_port ↦
          reserve_ports targets
            (append ports (
              record {
                container_port = target.container_port;
                protocol = target.protocol;
                node_port = node_port;
              }
              ∷ []))
            (append reserved (node_port ∷ []))
    ]

  -- The stack that an attempt starts from.
  abbrev pub new_stack : ValidationResult → String → Time → List PortMapping → Stack
  new_stack valid stack_id now ports = record {
    stack_id = stack_id;
    pod_id = "";
    namespace = s.cfg.namespace;
    node_id = "";
    node_public_ip = none;
    pod_spec_yaml = valid.sanitized_yaml;
    target_ports = valid.target_ports;
    ports = ports;
    service_name = "";
    status = Status.creating;
    ttl_expires_at = add_duration now s.cfg.stack_ttl;
    created_at = now;
    updated_at = now;
    requested_milli = valid.requested_milli;
    requested_bytes = valid.requested_bytes;
  }

  abbrev pub request : ValidationResult → String → ℕ → List PortMapping → ProvisionRequest
  request valid stack_id round ports = record {
    namespace = s.cfg.namespace;
    stack_id = stack_id;
    pod_name = if round == 0 then stack_id else stack_id ++ ("-retry-" ++ itoa round);
    pod_spec_yml = valid.sanitized_yaml;
    ports = ports;
  }

  abbrev pub with_result : Stack → ProvisionResult → Option String → Stack
  with_result st result ip = record st {
    pod_id = result.pod_id;
    node_id = result.node_id;
    node_public_ip = ip;
    service_name = result.service_name;
    status = result.status;
  }

  -- The value of an attempted call, or nil.
  abbrev pub value_or_nil : Result (Option String) → Option String
  value_or_nil (ok ip) = ip
  value_or_nil (err e) = none

  -- The rest of an attempt, once the pod and the service are there.
  unfoldable pub record_stack : Stack → List ℕ → ProvisionResult → Op W Stack
  record_stack st reserved result = do
    ip ← attempt (s.k8s.get_node_public_ip result.node_id)
    let st' = with_result st result (value_or_nil ip)
    created ← attempt (s.repo.create st')
    elim created [
      | err e ↦ (do
        attempt (s.k8s.delete_pod_and_service st'.namespace st'.pod_id st'.service_name)
        release_ports reserved
        raise e)
      | ok _ ↦ pure st'
    ]

  -- `for attempt := range 2`, with the rounds left and the last error.
  unfoldable pub create_rounds :
      ValidationResult → String → Time → ℕ → ℕ → Option Error → Op W Stack
  create_rounds valid stack_id now zero round last =
      raise
        (map_provision_error (elim last [ none ↦ plain "nodeport allocation failed" | some e ↦ e ]))
  create_rounds valid stack_id now (suc rounds) round last = do
    reservation ← reserve_ports valid.target_ports [] []
    provisioned ←
        attempt (s.k8s.create_pod_and_service (request valid stack_id round reservation.0))
    elim provisioned [
      | err e ↦ (do
        release_ports reservation.1
        elim (round == 0 && is_node_port_allocated_error e) [
          | true ↦ create_rounds valid stack_id now rounds (round + 1) (some e)
          | false ↦ raise (map_provision_error e)
        ])
      | ok result ↦ record_stack (new_stack valid stack_id now reservation.0) reservation.1 result
    ]

  unfoldable pub create : CreateInput → Op W Stack
  create input = do
    valid ← lift (validate_pod_spec s.validator input.pod_spec_yml input.target_ports)
    λ w.
        let (stack_id, w1) = new_stack_id s w in
        let (now, w2) = s.now w1 in create_rounds valid stack_id now 2 0 none w2
