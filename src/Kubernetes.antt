-- ===== src/Kubernetes.antt =====
-- internal/stack/kubernetes.go and kubernetes_mock.go: the interface to the cluster that the service
-- uses, and the client that simulates a cluster in memory. `now` stands for time.Now(), and `draw`
-- for the number that `m.rand.Intn` returns.
use Prim.Native.String.{◌++◌}
use container_provisioner_k.Base.{
  ℕ, zero, suc, ◌%◌, length, String, Bool, true, false, not, Option, none, some, List, [], ◌∷◌,
  if◌then◌else◌, ◌==◌, string_eq,
}
use container_provisioner_k.Base.Dict.{Dict, lookup, insert, erase}
use container_provisioner_k.Errors.{Result, ok, err, sentinel, plain, not_found}
use container_provisioner_k.Models.{Time, Status, PortMapping}

pub record ProvisionRequest : Type 0 where
  pub namespace : String
  pub stack_id : String
  pub pod_name : String
  pub pod_spec_yml : String
  pub ports : List PortMapping

pub record ProvisionResult : Type 0 where
  pub pod_id : String
  pub service_name : String
  pub node_id : String
  pub status : Status

pub record PodInfo : Type 0 where
  pub created_at : Time
  pub stack_id : String

pub record PodState : Type 0 where
  pub namespace : String
  pub pod_id : String
  pub service : String
  pub node_id : String
  pub status : Status
  pub created_at : Time
  pub stack_id : String

pub record MockKubernetesClient : Type 0 where
  pub nodes : Dict String Bool
  pub node_ips : Dict String (Option String)
  pub pods : Dict String PodState
  pub services : Dict String String

unfoldable pub new_mock_kubernetes_client : MockKubernetesClient
new_mock_kubernetes_client = record {
  nodes = ("worker-a", true) ∷ ("worker-b", true) ∷ ("worker-c", true) ∷ [];
  node_ips =
      ("worker-a", some "203.0.113.10")
      ∷ ("worker-b", none)
      ∷ ("worker-c", some "203.0.113.12")
      ∷ [];
  pods = [];
  services = [];
}

-- `m.nodes[id]`: false for a missing key
unfoldable pub node_alive : String → Dict String Bool → Bool
node_alive id nodes = elim (lookup id nodes) [ none ↦ false | some alive ↦ alive ]

unfoldable pub healthy_nodes : Dict String Bool → List String
healthy_nodes [] = []
healthy_nodes ((id, alive) ∷ nodes) =
    let rest = healthy_nodes nodes in if alive then id ∷ rest else rest

nth : ℕ → List String → Option String
nth i [] = none
nth zero (x ∷ xs) = some x
nth (suc i) (x ∷ xs) = nth i xs

unfoldable pub pick_node : ℕ → MockKubernetesClient → Result String
unfolding nth healthy_nodes
pick_node draw m = elim (nth draw (healthy_nodes m.nodes)) [
  | none ↦ err (plain "no schedulable nodes")
  | some id ↦ ok id
]

-- `m.rand.Intn(len(healthy))`, from a number of the random source
unfoldable pub intn : ℕ → MockKubernetesClient → ℕ
intn draw m = draw % length (healthy_nodes m.nodes)

abbrev pub chosen_pod_name : ProvisionRequest → String
chosen_pod_name req = if req.pod_name == "" then req.stack_id else req.pod_name

-- The body of CreatePodAndService after a node has been picked.
abbrev pub provisioned :
    Time → ProvisionRequest → String → MockKubernetesClient → ProvisionResult × MockKubernetesClient
provisioned now req node_id m =
    let pod_id = "stack-" ++ chosen_pod_name req in
    let service_name = "svc-" ++ req.stack_id in
    (
      record {
        pod_id = pod_id;
        service_name = service_name;
        node_id = node_id;
        status = Status.running;
      },
      record m {
        pods =
            insert pod_id
              (record {
                namespace = req.namespace;
                pod_id = pod_id;
                service = service_name;
                node_id = node_id;
                status = Status.running;
                created_at = now;
                stack_id = req.stack_id;
              })
              m.pods;
        services = insert service_name req.namespace m.services;
      },
    )

unfoldable pub create_pod_and_service :
    Time
    → ℕ
    → ProvisionRequest
    → MockKubernetesClient
    → Result ProvisionResult × MockKubernetesClient
unfolding pick_node
create_pod_and_service now draw req m = elim (pick_node draw m) [
  | err e ↦ (err e, m)
  | ok node_id ↦ let (result, m') = provisioned now req node_id m in (ok result, m')
]

-- The first half of DeletePodAndService: the named service, if there is one.
abbrev pub delete_service :
    String → String → MockKubernetesClient → Result (Unit {0}) × MockKubernetesClient
delete_service namespace service_name m =
    if service_name == "" then (ok tt, m) else elim (lookup service_name m.services) [
      | none ↦ (ok tt, m)
      | some svc_ns ↦
          if svc_ns == namespace
          then (ok tt, record m { services = erase service_name m.services })
          else (err (plain "service namespace mismatch"), m)
    ]

-- `if p.service != ""` at the end of DeletePodAndService
abbrev pub drop_service_of : String → String → Dict String String → Dict String String
drop_service_of namespace service services =
    if service == "" then services else elim (lookup service services) [
      | none ↦ services
      | some svc_ns ↦ if svc_ns == namespace then erase service services else services
    ]

-- The second half: the pod, and the service that the pod names.
abbrev pub delete_pod :
    String → String → MockKubernetesClient → Result (Unit {0}) × MockKubernetesClient
delete_pod namespace pod_id m = elim (lookup pod_id m.pods) [
  | none ↦ (ok tt, m)
  | some p ↦
      if p.namespace == namespace
      then (
        ok tt,
        record m {
          pods = erase pod_id m.pods;
          services = drop_service_of namespace p.service m.services;
        },
      )
      else (err (plain "pod namespace mismatch"), m)
]

unfoldable pub delete_pod_and_service :
    String → String → String → MockKubernetesClient → Result (Unit {0}) × MockKubernetesClient
delete_pod_and_service namespace pod_id service_name m =
    let (r, m') = delete_service namespace service_name m in
    elim r [ err e ↦ (err e, m') | ok _ ↦ delete_pod namespace pod_id m' ]

unfoldable pub get_pod_status : String → String → MockKubernetesClient → Result (Status × String)
get_pod_status namespace pod_id m = elim (lookup pod_id m.pods) [
  | none ↦ err (sentinel not_found)
  | some p ↦
      if not (p.namespace == namespace)
      then err (sentinel not_found)
      else if node_alive p.node_id m.nodes
      then ok (p.status, p.node_id)
      else ok (Status.node_deleted, p.node_id)
]

unfoldable pub list_pods : String → Dict String PodState → List String
list_pods namespace [] = []
list_pods namespace ((_, p) ∷ pods) =
    let rest = list_pods namespace pods in
    if p.namespace == namespace then p.pod_id ∷ rest else rest

unfoldable pub list_pods_with_creation :
    String → Dict String PodState → Dict String PodInfo → Dict String PodInfo
list_pods_with_creation namespace [] out = out
list_pods_with_creation namespace ((_, p) ∷ pods) out = list_pods_with_creation namespace pods (
    if p.namespace == namespace
    then insert p.pod_id (record { created_at = p.created_at; stack_id = p.stack_id }) out
    else out)

unfoldable pub list_services : String → Dict String String → List String
list_services namespace [] = []
list_services namespace ((name, svc_ns) ∷ services) =
    let rest = list_services namespace services in if svc_ns == namespace then name ∷ rest else rest

unfoldable pub node_exists : String → MockKubernetesClient → Bool
node_exists node_id m = node_alive node_id m.nodes

unfoldable pub get_node_public_ip : String → MockKubernetesClient → Option String
get_node_public_ip node_id m = elim (lookup node_id m.node_ips) [ none ↦ none | some ip ↦ ip ]

unfoldable pub count_schedulable_nodes : Dict String Bool → ℕ
count_schedulable_nodes [] = 0
count_schedulable_nodes ((_, alive) ∷ nodes) =
    let rest = count_schedulable_nodes nodes in if alive then suc rest else rest
