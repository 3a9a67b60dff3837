-- ===== src/Cluster/Laws.antt =====
-- What internal/stack/kubernetes.go relies on of the cluster, and the calls that change neither pods nor
-- services.
use container_provisioner_k.Base.{
  ℕ, zero, suc, String, Bool, true, false, not, if◌then◌else◌, Option, ◌≡◌, refl, ◌∙◌,
}
use container_provisioner_k.Config.{Duration}
use container_provisioner_k.Errors.{Error, Result, ok, err, sentinel, not_found}
use container_provisioner_k.Op.{Op, raise}
use container_provisioner_k.Service.Upholds.{Keeps, bind-Keeps, attempt-Keeps, finish-Keeps}
use container_provisioner_k.Cluster.{
  KubernetesClient, ensure_namespace, create_missing, poll_condition, wait_until_schedulable,
  wait_timeout, get_pod_with_retry, retry_outcome, refused_unless, wrapped,
}
use container_provisioner_k.Cluster.Api.{PodObject, PodView, ServiceObject}

-- The pods and the services that are in the cluster and not marked for deletion, by namespace and name.
pub record ClusterView (W : Type 0) : Type 0 where
  pub pods : W → String → String → Bool
  pub services : W → String → String → Bool

module _ {W : Type 0} (v : ClusterView W) where
  -- The same pods, and the same services.
  abbrev pub SamePods : W → W → Type 0
  SamePods w w' = (ns name : String) → v.pods w' ns name ≡ v.pods w ns name

  abbrev pub SameServices : W → W → Type 0
  SameServices w w' = (ns name : String) → v.services w' ns name ≡ v.services w ns name

  abbrev pub Same : W → W → Type 0
  Same w w' = SamePods w w' × SameServices w w'

-- What the calls of the API do to pods and services. A creation or a deletion that succeeds takes
-- effect; one that fails may have done so or not, but a deletion that does not find the object leaves
-- none. No other client touches the pod and the service in the meantime.
pub record ClusterLaws {W S : Type 0} (c : KubernetesClient W S) (v : ClusterView W) : Type 0 where
  pub get_namespace : (ns : String) (w : W) → Same v w (c.client.get_namespace ns w).1
  pub create_namespace : (ns : String) (w : W) → Same v w (c.client.create_namespace ns w).1
  pub get_pod : (ns name : String) (w : W) → Same v w (c.client.get_pod ns name w).1
  pub unmarshal : (text : String) (w : W) → Same v w (c.client.unmarshal text w).1
  pub pause : (delay : Duration) (w : W) → Same v w (c.client.pause delay w).1
  pub poll :
      (timeout : Option Duration) (condition : Op W Bool)
      → ((w : W) → Same v w (condition w).1)
      → (w : W) → Same v w (c.client.poll timeout condition w).1
  pub create_pod :
      (ns : String) (pod : PodObject S) (w : W) → SameServices v w (c.client.create_pod ns pod w).1
  pub create_pod_made :
      (ns : String) (pod : PodObject S) (w : W)
      → (c.client.create_pod ns pod w).0 ≡ ok tt
      → v.pods (c.client.create_pod ns pod w).1 ns pod.name ≡ true
  pub create_service :
      (ns : String) (svc : ServiceObject) (w : W)
      → SamePods v w (c.client.create_service ns svc w).1
  pub create_service_made :
      (ns : String) (svc : ServiceObject) (w : W)
      → (c.client.create_service ns svc w).0 ≡ ok tt
      → v.services (c.client.create_service ns svc w).1 ns svc.name ≡ true
  pub delete_pod : (ns name : String) (w : W) → SameServices v w (c.client.delete_pod ns name w).1
  pub delete_pod_made :
      (ns name : String) (w w' : W)
      → c.client.delete_pod ns name w ≡ (ok tt, w')
      → v.pods w' ns name ≡ false
  pub delete_pod_absent :
      (ns name : String) (w w' : W) (e : Error)
      → c.client.delete_pod ns name w ≡ (err e, w')
      → c.client.is_not_found e ≡ true
      → v.pods w' ns name ≡ false
  pub delete_service :
      (ns name : String) (w : W) → SamePods v w (c.client.delete_service ns name w).1
  pub delete_service_made :
      (ns name : String) (w w' : W)
      → c.client.delete_service ns name w ≡ (ok tt, w')
      → v.services w' ns name ≡ false
  pub delete_service_absent :
      (ns name : String) (w w' : W) (e : Error)
      → c.client.delete_service ns name w ≡ (err e, w')
      → c.client.is_not_found e ≡ true
      → v.services w' ns name ≡ false

module _ {W S : Type 0} (c : KubernetesClient W S) (v : ClusterView W)
    (laws : ClusterLaws c v) where
  Same-Keeps :
      {A : Type 0} (m : Op W A) (w0 : W) → ((w : W) → Same v w (m w).1) → Keeps (Same v w0) m
  Same-Keeps m w0 same = record {
    after = λ w h. (
      (λ ns name. (same w).0 ns name ∙ h.0 ns name),
      (λ ns name. (same w).1 ns name ∙ h.1 ns name),
    );
  }

  pub still : (w : W) → Same v w w
  still w = ((λ ns name. refl), (λ ns name. refl))

  poll_condition-Same : (ns name : String) (w : W) → Same v w (poll_condition c ns name w).1
  unfolding poll_condition
  poll_condition-Same ns name w = laws.get_pod ns name w

  pub wait-Same : (ns name : String) (w : W) → Same v w (wait_until_schedulable c ns name w).1
  unfolding wait_until_schedulable
  wait-Same ns name w =
      laws.poll (wait_timeout c) (poll_condition c ns name) (poll_condition-Same ns name) w

  raise-Keeps : {A : Type 0} (e : Error) (w0 : W) → Keeps (Same v w0) (raise {A = A} e)
  raise-Keeps e w0 = record { after = λ w h. h }

  if-Keeps :
      {A : Type 0} (b : Bool) {m n : Op W A} (w0 : W)
      → Keeps (Same v w0) m
      → Keeps (Same v w0) n
      → Keeps (Same v w0) (if b then m else n)
  if-Keeps true w0 km kn = km
  if-Keeps false w0 km kn = kn

  retry_outcome-Keeps :
      (last : Bool) (delay : Duration) (again : Op W PodView) (o : Result PodView) (w0 : W)
      → Keeps (Same v w0) again
      → Keeps (Same v w0) (retry_outcome c last delay again o)
  retry_outcome-Keeps last delay again (ok pod) w0 kept = record { after = λ w h. h }
  retry_outcome-Keeps last delay again (err e) w0 kept =
      if-Keeps (not (c.client.is_not_found e)) w0 (raise-Keeps e w0) (
        if-Keeps last w0 (raise-Keeps e w0) (
          bind-Keeps {f = λ u. again} (Same-Keeps (c.client.pause delay) w0 (laws.pause delay))
            (λ u. kept)))

  pub retry-Keeps :
      (left : ℕ) (delay : Duration) (ns name : String) (w0 : W)
      → Keeps (Same v w0) (get_pod_with_retry c left delay ns name)
  unfolding get_pod_with_retry
  retry-Keeps zero delay ns name w0 =
      bind-Keeps {f = retry_outcome c true delay (raise (sentinel not_found))}
        (attempt-Keeps (Same-Keeps (c.client.get_pod ns name) w0 (laws.get_pod ns name)))
        (λ o.
          retry_outcome-Keeps true delay (raise (sentinel not_found)) o w0
            (raise-Keeps (sentinel not_found) w0))
  retry-Keeps (suc left) delay ns name w0 =
      bind-Keeps {f = retry_outcome c false delay (get_pod_with_retry c left delay ns name)}
        (attempt-Keeps (Same-Keeps (c.client.get_pod ns name) w0 (laws.get_pod ns name)))
        (λ o.
          retry_outcome-Keeps false delay (get_pod_with_retry c left delay ns name) o w0
            (retry-Keeps left delay ns name w0))

  create_missing-Keeps :
      (ns : String) (o : Result (Unit {0})) (w0 : W) → Keeps (Same v w0) (create_missing c ns o)
  create_missing-Keeps ns (ok a) w0 = record { after = λ w h. h }
  create_missing-Keeps ns (err e) w0 =
      if-Keeps (c.client.is_not_found e) w0
        (finish-Keeps
          (attempt-Keeps (Same-Keeps (c.client.create_namespace ns) w0 (laws.create_namespace ns)))
          (refused_unless c c.client.is_already_exists (wrapped "create namespace: ")))
        (raise-Keeps e w0)

  pub ensure_namespace-Keeps : (ns : String) (w0 : W) → Keeps (Same v w0) (ensure_namespace c ns)
  unfolding ensure_namespace
  ensure_namespace-Keeps ns w0 =
      bind-Keeps {f = create_missing c ns}
        (attempt-Keeps (Same-Keeps (c.client.get_namespace ns) w0 (laws.get_namespace ns)))
        (λ o. create_missing-Keeps ns o w0)
