-- ===== src/Cluster.antt =====
-- internal/stack/kubernetes.go: KubernetesClient, over the API of the cluster.
pub mod Api
pub mod Provision
pub mod Reads
pub mod Rollback
pub mod Laws
use Prim.Native.String.{◌++◌}
use container_provisioner_k.Base.{
  ℕ, zero, suc, ◌+◌, ◌*◌, ◌^◌, String, Bool, true, false, ◌&&◌, not, Option, none, some, List, [],
  ◌∷◌, map, if◌then◌else◌, ◌==◌, string_eq,
}
use container_provisioner_k.Base.Int.{ℤ, pos, to_int32, ltb_ℤ}
use container_provisioner_k.Base.Dict.{Dict, lookup, insert}
use container_provisioner_k.Base.Text.{to_upper, to_lower, format_int}
use container_provisioner_k.Config.{Duration}
use container_provisioner_k.Errors.{
  Error, Result, ok, err, sentinel, plain, wrap, not_found, cluster_saturated, is_error,
  is_context_error,
}
use container_provisioner_k.Op.{Op, pure, raise, lift, attempt, ◌>>=◌, ◌>>◌}
use container_provisioner_k.Models
use container_provisioner_k.Models.{Status, PortMapping}
use container_provisioner_k.Kubernetes.{ProvisionRequest, ProvisionResult, PodInfo}
use container_provisioner_k.Cluster.Api.{
  PodObject, ServicePort, ServiceObject, Condition, PodView, NodeView, ClusterApi,
}

pub record KubernetesClient (W S : Type 0) : Type 0 where
  pub client : ClusterApi W S
  pub scheduling_timeout : Duration
  pub stack_node_role : String

-- fmt.Errorf("text: %w", err)
abbrev pub wrapped : String → Error → Error
wrapped text e = wrap text e ""

abbrev pub map_pod_phase_to_status : String → Status
map_pod_phase_to_status phase =
    if phase == "Running"
    then Status.running
    else if phase == "Failed"
    then Status.failed
    else if phase == "Succeeded"
    then Models.stopped
    else Models.creating

unfoldable pub is_node_ready : List Condition → Bool
is_node_ready [] = false
is_node_ready (c ∷ conditions) =
    let rest = is_node_ready conditions in
    if c.condition_type == "Ready" then c.status == "True" else rest

-- The test of a condition in waitUntilSchedulable, and the loop over them.
unfoldable pub is_unschedulable : List Condition → Bool
is_unschedulable [] = false
is_unschedulable (c ∷ conditions) =
    let rest = is_unschedulable conditions in
    if c.condition_type == "PodScheduled" && c.status == "False" && c.reason == "Unschedulable"
    then true
    else rest

abbrev protocol_of : PortMapping → String
protocol_of p = if to_upper p.protocol == "UDP" then "UDP" else "TCP"

unfoldable pub service_port : PortMapping → ServicePort
service_port p = record {
  name = "p-" ++ (format_int p.container_port ++ ("-" ++ to_lower (protocol_of p)));
  protocol = protocol_of p;
  port = to_int32 p.container_port;
  target_port = to_int32 p.container_port;
  node_port = to_int32 (pos p.node_port);
}

module _ {W S : Type 0} (c : KubernetesClient W S) where
  -- The error of a call, unless `passes` holds of it, with a text before it.
  abbrev pub refused_unless :
      (Error → Bool) → (Error → Error) → Result (Unit {0}) → Result (Unit {0})
  refused_unless passes f (ok a) = ok tt
  refused_unless passes f (err e) = if passes e then ok tt else err (f e)

  abbrev pub create_missing : String → Result (Unit {0}) → Op W (Unit {0})
  create_missing ns (ok a) = pure tt
  create_missing ns (err e) =
      if c.client.is_not_found e
      then (attempt (c.client.create_namespace ns) >>= λ outcome.
          lift (refused_unless c.client.is_already_exists (wrapped "create namespace: ") outcome))
      else raise e

  unfoldable pub ensure_namespace : String → Op W (Unit {0})
  ensure_namespace ns = attempt (c.client.get_namespace ns) >>= λ outcome. create_missing ns outcome

  abbrev pub labels_of : ProvisionRequest → Dict String String → Dict String String
  labels_of req labels = insert "smctf.io/stack-id" req.stack_id (
      insert "app.kubernetes.io/instance" req.stack_id
        (insert "app.kubernetes.io/name" "smctf-stack" labels))

  abbrev pub pod_name : ProvisionRequest → String
  pod_name req = if req.pod_name == "" then req.stack_id else req.pod_name

  abbrev pub service_name : ProvisionRequest → String
  service_name req = "svc-" ++ req.stack_id

  -- The pod that is created, from the one that was decoded.
  unfoldable pub placed_pod : ProvisionRequest → PodObject S → PodObject S
  unfolding insert
  placed_pod req pod = record {
    api_version = "v1";
    kind = "Pod";
    name = pod_name req;
    namespace = req.namespace;
    labels = labels_of req pod.labels;
    annotations = pod.annotations;
    node_selector = insert "role" c.stack_node_role pod.node_selector;
    spec = pod.spec;
  }

  unfoldable pub new_service : ProvisionRequest → PodObject S → ServiceObject
  unfolding insert service_port
  new_service req pod = record {
    name = service_name req;
    namespace = req.namespace;
    labels = labels_of req pod.labels;
    service_type = "NodePort";
    selector = ("smctf.io/stack-id", req.stack_id) ∷ [];
    ports = map service_port req.ports;
  }

  -- What the condition of the poll makes of the pod.
  abbrev pub poll_pod : Result PodView → Result Bool
  poll_pod (err e) = if c.client.is_not_found e then err (sentinel not_found) else err e
  poll_pod (ok pod) =
      if is_unschedulable pod.conditions
      then err (sentinel cluster_saturated)
      else if not (pod.node_name == "")
      then ok true
      else if pod.phase == "Failed"
      then err (plain "pod failed before scheduling")
      else ok false

  unfoldable pub poll_condition : String → String → Op W Bool
  unfolding is_unschedulable
  poll_condition ns name = attempt (c.client.get_pod ns name) >>= λ outcome. lift (poll_pod outcome)

  abbrev pub map_wait_error : Error → Error
  map_wait_error e =
      if is_error cluster_saturated e
      then sentinel cluster_saturated
      else if is_context_error e
      then sentinel cluster_saturated
      else e

  abbrev pub waited : Result (Unit {0}) → Result (Unit {0})
  waited (ok a) = ok tt
  waited (err e) = err (map_wait_error e)

  -- `if c.schedulingTimeout > 0`
  abbrev pub wait_timeout : Option Duration
  wait_timeout = if ltb_ℤ (pos 0) c.scheduling_timeout then some c.scheduling_timeout else none

  unfoldable pub wait_until_schedulable : String → String → Op W (Unit {0})
  unfolding poll_condition
  wait_until_schedulable ns name =
      attempt (c.client.poll wait_timeout (poll_condition ns name)) >>= λ outcome.
      lift (waited outcome)

  -- An attempt of getPodWithRetry: whether it goes on, with `last` true in the last round.
  abbrev pub retry_outcome : Bool → Duration → Op W PodView → Result PodView → Op W PodView
  retry_outcome last delay again (ok pod) = pure pod
  retry_outcome last delay again (err e) =
      if not (c.client.is_not_found e)
      then raise e
      else if last
      then raise e
      else (c.client.pause delay >>= λ u. again)

  -- getPodWithRetry with `left` rounds after this one
  unfoldable pub get_pod_with_retry : ℕ → Duration → String → String → Op W PodView
  get_pod_with_retry zero delay ns name = attempt (c.client.get_pod ns name) >>= λ outcome.
      retry_outcome true delay (raise (sentinel not_found)) outcome
  get_pod_with_retry (suc left) delay ns name = attempt (c.client.get_pod ns name) >>= λ outcome.
      retry_outcome false delay (get_pod_with_retry left delay ns name) outcome
