-- ===== src/Tests/Cluster.antt =====
-- CreatePodAndService on a cluster in memory.
use container_provisioner_k.Base.{
  ◌*◌, ◌^◌, String, Bool, true, false, ◌&&◌, [], if◌then◌else◌, ◌==◌, string_eq, ◌≡◌, refl, sym, ap,
  ◌∙◌, arith,
}
use container_provisioner_k.Base.Int.{pos}
use container_provisioner_k.Base.Dict.{beq_refl}
use container_provisioner_k.Errors.{Result, ok, err, deadline_exceeded, sentinel, cluster_saturated}
use container_provisioner_k.Kubernetes.{ProvisionRequest}
use container_provisioner_k.Cluster.{KubernetesClient}
use container_provisioner_k.Cluster.Provision.{create_pod_and_service}
use container_provisioner_k.Cluster.Laws.{ClusterView, ClusterLaws}
use container_provisioner_k.Cluster.Rollback.{Settled, create_pod_and_service-Settled}
use container_provisioner_k.Tests.Inputs.{stack}

record Objects : Type 0 where
  pods : String → String → Bool
  services : String → String → Bool

abbrev view : ClusterView Objects
view = record { pods = λ w. w.pods; services = λ w. w.services }

abbrev set : Bool → String → String → (String → String → Bool) → String → String → Bool
set value ns name objects ns' name' =
    if ns == ns' && name == name' then value else objects ns' name'

abbrev polled : Result Bool → Result (Unit {0})
polled (ok true) = ok tt
polled (ok false) = err deadline_exceeded
polled (err e) = err e

-- Every pod is placed on the node `node`; there is none where it is empty.
abbrev client : String → KubernetesClient Objects (Unit {0})
client node = record {
  client = record {
    get_namespace = λ ns w. (ok tt, w);
    create_namespace = λ ns w. (ok tt, w);
    create_pod = λ ns pod w. (ok tt, record w { pods = set true ns pod.name w.pods });
    get_pod = λ ns name w. (
      ok (record {
        name = name;
        labels = [];
        creation = 1000;
        node_name = node;
        phase = "Running";
        reason = "";
        conditions = [];
      }),
      w,
    );
    delete_pod = λ ns name w. (ok tt, record w { pods = set false ns name w.pods });
    list_pods = λ ns w. (ok [], w);
    create_service = λ ns svc w. (ok tt, record w { services = set true ns svc.name w.services });
    delete_service = λ ns name w. (ok tt, record w { services = set false ns name w.services });
    list_services = λ ns w. (ok [], w);
    get_node = λ id w. (err deadline_exceeded, w);
    list_nodes = λ selector w. (ok [], w);
    list_network_policies = λ w. (ok [], w);
    is_not_found = λ e. false;
    is_already_exists = λ e. false;
    unmarshal = λ text w. (
      ok (record {
        api_version = "";
        kind = "";
        name = "";
        namespace = "";
        labels = [];
        annotations = [];
        node_selector = [];
        spec = tt;
      }),
      w,
    );
    pause = λ delay w. (ok tt, w);
    poll = λ timeout condition w. let (r, w') = condition w in (polled r, w');
  };
  scheduling_timeout = pos (20 * 10 ^ 9);
  stack_node_role = "stack";
}

set_same :
    (value : Bool) (ns name : String) (objects : String → String → Bool)
    → set value ns name objects ns name ≡ value
set_same value ns name objects = rw (beq_refl ns, beq_refl name) refl

client-ClusterLaws : (node : String) → ClusterLaws (client node) view
client-ClusterLaws node = record {
  get_namespace = λ ns w. ((λ a b. refl), (λ a b. refl));
  create_namespace = λ ns w. ((λ a b. refl), (λ a b. refl));
  get_pod = λ ns name w. ((λ a b. refl), (λ a b. refl));
  unmarshal = λ text w. ((λ a b. refl), (λ a b. refl));
  pause = λ delay w. ((λ a b. refl), (λ a b. refl));
  poll = λ timeout condition same w. same w;
  create_pod = λ ns pod w a b. refl;
  create_pod_made = λ ns pod w h. set_same true ns pod.name w.pods;
  create_service = λ ns svc w a b. refl;
  create_service_made = λ ns svc w h. set_same true ns svc.name w.services;
  delete_pod = λ ns name w a b. refl;
  delete_pod_made =
      λ ns name w w' h. sym (ap (λ o. o.1.pods ns name) h) ∙ set_same false ns name w.pods;
  delete_pod_absent = λ ns name w w' e h absent. absurd (ground arith);
  delete_service = λ ns name w a b. refl;
  delete_service_made =
      λ ns name w w' h. sym (ap (λ o. o.1.services ns name) h) ∙ set_same false ns name w.services;
  delete_service_absent = λ ns name w w' e h absent. absurd (ground arith);
}

abbrev empty_cluster : Objects
empty_cluster = record { pods = λ ns name. false; services = λ ns name. false }

abbrev req : ProvisionRequest
req = record {
  namespace = "stacks";
  stack_id = "stack-1";
  pod_name = "";
  pod_spec_yml = "kind: Pod";
  ports = stack.ports;
}

-- Without a node the wait ends at its deadline, and the cluster is reported as saturated.
saturated :
    (create_pod_and_service (client "") req empty_cluster).0 ≡ err (sentinel cluster_saturated)
unfolding create_pod_and_service
saturated = refl

-- Where the deletion of the pod fails too, the pod is left behind.
abbrev stubborn : KubernetesClient Objects (Unit {0})
stubborn = record (client "") {
  client = record (client "").client { delete_pod = λ ns name w. (err deadline_exceeded, w) };
}

pod_stays :
    let (outcome, after) = create_pod_and_service stubborn req empty_cluster in
    (outcome ≡ err (sentinel cluster_saturated))
    × (after.pods "stacks" "stack-1" ≡ true)
    × (after.services "stacks" "svc-stack-1" ≡ false)
unfolding create_pod_and_service
pod_stays = (refl, refl, refl)

create_pod_and_service-Settled_example :
    Settled
      (client "worker-a")
      view
      req
      (create_pod_and_service (client "worker-a") req empty_cluster)
create_pod_and_service-Settled_example =
    create_pod_and_service-Settled (client "worker-a") view (client-ClusterLaws "worker-a") req
      empty_cluster refl refl
