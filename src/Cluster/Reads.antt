-- ===== src/Cluster/Reads.antt =====
-- The readers of internal/stack/kubernetes.go, and the interface that the client fills.
use Prim.Native.String.{◌++◌}
use container_provisioner_k.Base.{
  ℕ, suc, String, Bool, true, false, ◌&&◌, ◌||◌, not, Option, none, some, List, [], ◌∷◌,
  if◌then◌else◌, ◌==◌, string_eq,
}
use container_provisioner_k.Base.Dict.{Dict, lookup, insert}
use container_provisioner_k.Errors.{Result, ok, err, sentinel, not_found}
use container_provisioner_k.Op.{Op, pure, lift, attempt, ◌>>=◌}
use container_provisioner_k.Models
use container_provisioner_k.Models.{Status}
use container_provisioner_k.Kubernetes.{PodInfo}
use container_provisioner_k.Service.{KubernetesClientApi}
use container_provisioner_k.Cluster.{
  KubernetesClient, wrapped, map_pod_phase_to_status, is_node_ready,
}
use container_provisioner_k.Cluster.Api.{PodView, NodeView}
use container_provisioner_k.Cluster.Provision.{create_pod_and_service, delete_pod_and_service}

-- `if err != nil { return ..., fmt.Errorf("text: %w", err) }`
abbrev pub wrapping : {A : Type 0} → String → Result A → Result A
wrapping text (ok a) = ok a
wrapping text (err e) = err (wrapped text e)

abbrev pub or_empty : Option String → String
or_empty none = ""
or_empty (some value) = value

unfoldable pub pod_names : List PodView → List String
pod_names [] = []
pod_names (pod ∷ pods) =
    let rest = pod_names pods in if pod.name == "" then rest else pod.name ∷ rest

-- The loop of ListPodsWithCreation, with the map so far.
unfoldable pub pod_infos : List PodView → Dict String PodInfo → Dict String PodInfo
unfolding insert lookup
pod_infos [] out = out
pod_infos (pod ∷ pods) out = pod_infos pods (
    if pod.name == ""
    then out
    else insert pod.name
        (record {
          created_at = pod.creation;
          stack_id = or_empty (lookup "smctf.io/stack-id" pod.labels);
        })
        out)

unfoldable pub named : List String → List String
named [] = []
named (name ∷ names) = let rest = named names in if name == "" then rest else name ∷ rest

unfoldable pub contains_ingress : List String → Bool
contains_ingress [] = false
contains_ingress (t ∷ types) = let rest = contains_ingress types in t == "Ingress" || rest

unfoldable pub any_ingress : List (List String) → Bool
unfolding contains_ingress
any_ingress [] = false
any_ingress (types ∷ policies) =
    let rest = any_ingress policies in if contains_ingress types then true else rest

unfoldable pub external_address : List (String × String) → Option String
external_address [] = none
external_address ((kind, address) ∷ addresses) =
    let rest = external_address addresses in
    if kind == "ExternalIP" && not (address == "") then some address else rest

unfoldable pub count_ready : List NodeView → ℕ
unfolding is_node_ready
count_ready [] = 0
count_ready (node ∷ nodes) =
    let rest = count_ready nodes in
    if node.unschedulable then rest else if is_node_ready node.conditions then suc rest else rest

module _ {W S : Type 0} (c : KubernetesClient W S) where
  abbrev status_of_pod : Result PodView → Result (Status × String)
  status_of_pod (err e) = if c.client.is_not_found e then err (sentinel not_found) else err e
  status_of_pod (ok pod) =
      if pod.reason == "NodeLost"
      then ok (Models.node_deleted, pod.node_name)
      else ok (map_pod_phase_to_status pod.phase, pod.node_name)

  unfoldable pub get_pod_status : String → String → Op W (Status × String)
  get_pod_status ns pod_id =
      attempt (c.client.get_pod ns pod_id) >>= λ outcome. lift (status_of_pod outcome)

  unfoldable pub list_pods : String → Op W (List String)
  unfolding pod_names
  list_pods ns = attempt (c.client.list_pods ns) >>= λ outcome.
      lift (wrapping "list pods: " outcome) >>= λ pods. pure (pod_names pods)

  unfoldable pub list_pods_with_creation : String → Op W (Dict String PodInfo)
  unfolding pod_infos
  list_pods_with_creation ns = attempt (c.client.list_pods ns) >>= λ outcome.
      lift (wrapping "list pods: " outcome) >>= λ pods. pure (pod_infos pods [])

  unfoldable pub list_services : String → Op W (List String)
  unfolding named
  list_services ns = attempt (c.client.list_services ns) >>= λ outcome.
      lift (wrapping "list services: " outcome) >>= λ names. pure (named names)

  abbrev node_found : Result NodeView → Result Bool
  node_found (ok node) = ok true
  node_found (err e) = if c.client.is_not_found e then ok false else err e

  unfoldable pub node_exists : String → Op W Bool
  node_exists node_id =
      if node_id == ""
      then pure false
      else (attempt (c.client.get_node node_id) >>= λ outcome. lift (node_found outcome))

  unfoldable pub has_ingress_network_policy : Op W Bool
  unfolding any_ingress
  has_ingress_network_policy = attempt c.client.list_network_policies >>= λ outcome.
      lift (wrapping "list networkpolicies: " outcome) >>= λ policies. pure (any_ingress policies)

  abbrev node_address : Result NodeView → Result (Option String)
  node_address (ok node) = ok (external_address node.addresses)
  node_address (err e) = if c.client.is_not_found e then ok none else err e

  unfoldable pub get_node_public_ip : String → Op W (Option String)
  unfolding external_address
  get_node_public_ip node_id =
      if node_id == ""
      then pure none
      else (attempt (c.client.get_node node_id) >>= λ outcome. lift (node_address outcome))

  unfoldable pub count_schedulable_nodes : Op W ℕ
  unfolding count_ready
  count_schedulable_nodes =
      attempt
        (c.client.list_nodes (if c.stack_node_role == "" then "" else "role=" ++ c.stack_node_role))
      >>= λ outcome. lift (wrapping "list nodes: " outcome) >>= λ nodes. pure (count_ready nodes)

  abbrev pub kubernetes_client : KubernetesClientApi W
  kubernetes_client = record {
    create_pod_and_service = create_pod_and_service c;
    delete_pod_and_service = delete_pod_and_service c;
    get_pod_status = get_pod_status;
    list_pods = list_pods;
    list_pods_with_creation = list_pods_with_creation;
    list_services = list_services;
    node_exists = node_exists;
    has_ingress_network_policy = has_ingress_network_policy;
    get_node_public_ip = get_node_public_ip;
    count_schedulable_nodes = count_schedulable_nodes;
  }
