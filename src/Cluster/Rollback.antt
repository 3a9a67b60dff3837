-- ===== src/Cluster/Rollback.antt =====
-- What CreatePodAndService of internal/stack/kubernetes.go leaves in the cluster.
use container_provisioner_k.Base.{Bool, true, false, ◌≡◌, ◌⊎◌, refl, ◌∙◌, inl, inr, Bool-cases}
use container_provisioner_k.Errors.{Error, Result, ok, err}
use container_provisioner_k.Op.{Result-cases, Outcome-cases}
use container_provisioner_k.Kubernetes.{ProvisionRequest, ProvisionResult}
use container_provisioner_k.Cluster.{
  KubernetesClient, ensure_namespace, pod_name, service_name, placed_pod, new_service,
  wait_until_schedulable, get_pod_with_retry,
}
use container_provisioner_k.Cluster.Api.{PodObject, PodView, ServiceObject}
use container_provisioner_k.Cluster.Provision.{
  retry_delay, after_get, after_wait, after_service, after_pod, after_decode,
  create_pod_and_service,
}
use container_provisioner_k.Cluster.Laws.{
  ClusterView, ClusterLaws, still, wait-Same, retry-Keeps, ensure_namespace-Keeps,
}

module _ {W S : Type 0} (c : KubernetesClient W S) (v : ClusterView W)
    (req : ProvisionRequest) where
  abbrev HasPod : Bool → W → Type 0
  HasPod b w = v.pods w req.namespace (pod_name c req) ≡ b

  abbrev HasService : Bool → W → Type 0
  HasService b w = v.services w req.namespace (service_name c req) ≡ b

  -- The pod is not there; or the last call was one to create it or to delete it, and failed.
  abbrev PodSettled : W → Type 0
  PodSettled w =
      HasPod false w
      ⊎ ((pod : PodObject S) × (e : Error) × (w0 : W) × (pod.name ≡ pod_name c req)
          × (c.client.create_pod req.namespace pod w0 ≡ (err e, w)))
      ⊎ ((e : Error) × (w0 : W) × (c.client.delete_pod req.namespace (pod_name c req) w0
            ≡ (err e, w))
          × (c.client.is_not_found e ≡ false))

  -- The service is not there; or the call to create it or to delete it failed, and was followed by the
  -- deletion of the pod.
  abbrev ServiceSettled : W → Type 0
  ServiceSettled w =
      HasService false w
      ⊎ ((svc : ServiceObject) × (e : Error) × (w0 w1 : W) × (svc.name ≡ service_name c req)
          × (c.client.create_service req.namespace svc w0 ≡ (err e, w1))
          × ((c.client.delete_pod req.namespace (pod_name c req) w1).1 ≡ w))
      ⊎ ((e : Error) × (w0 w1 : W) × (c.client.delete_service req.namespace (service_name c req) w0
            ≡ (err e, w1))
          × (c.client.is_not_found e ≡ false)
          × ((c.client.delete_pod req.namespace (pod_name c req) w1).1 ≡ w))

  -- After a failure nothing is left behind but what a failed creation or deletion may leave; after a
  -- success both are there, under the names that are returned.
  abbrev pub Settled : Result ProvisionResult × W → Type 0
  Settled (err e, w) = PodSettled w × ServiceSettled w
  Settled (ok res, w) =
      (res.pod_id ≡ pod_name c req)
      × (res.service_name ≡ service_name c req)
      × HasPod true w
      × HasService true w

module _ {W S : Type 0} (c : KubernetesClient W S) (v : ClusterView W) (laws : ClusterLaws c v)
    (req : ProvisionRequest) where
  delete_pod-PodSettled :
      (w : W) → PodSettled c v req (c.client.delete_pod req.namespace (pod_name c req) w).1
  delete_pod-PodSettled w =
      elim (Outcome-cases (c.client.delete_pod req.namespace (pod_name c req) w)) [
        | inl (tt, w1, h) ↦ rw h (inl (laws.delete_pod_made req.namespace (pod_name c req) w w1 h))
        | inr (e, w1, h) ↦ elim (Bool-cases (c.client.is_not_found e)) [
          | inl absent ↦
              rw h (inl (laws.delete_pod_absent req.namespace (pod_name c req) w w1 e h absent))
          | inr other ↦ rw h (inr (inr (e, w, h, other)))
        ]
      ]

  dropped :
      (w : W)
      → let w' = (c.client.delete_service req.namespace (service_name c req) w).1 in
        let w'' = (c.client.delete_pod req.namespace (pod_name c req) w').1 in
        PodSettled c v req w'' × ServiceSettled c v req w''
  dropped w =
      let w' = (c.client.delete_service req.namespace (service_name c req) w).1 in
      (
        delete_pod-PodSettled w',
        elim (Outcome-cases (c.client.delete_service req.namespace (service_name c req) w)) [
          | inl (tt, w1, h) ↦ rw h (
              inl (
                laws.delete_pod req.namespace (pod_name c req) w1 req.namespace (service_name c req)
                ∙ laws.delete_service_made req.namespace (service_name c req) w w1 h))
          | inr (e, w1, h) ↦ elim (Bool-cases (c.client.is_not_found e)) [
            | inl absent ↦ rw h (
                inl (
                  laws.delete_pod req.namespace (pod_name c req) w1 req.namespace
                    (service_name c req)
                  ∙ laws.delete_service_absent req.namespace (service_name c req) w w1 e h absent))
            | inr other ↦ rw h (inr (inr (e, w, w1, h, other, refl)))
          ]
        ],
      )

  after_get-Settled :
      (o : Result PodView) (w : W)
      → HasPod c v req true w
      → HasService c v req true w
      → Settled c v req (after_get c req o w)
  unfolding after_get
  after_get-Settled (ok pod) w p s = (refl, refl, p, s)
  after_get-Settled (err e) w p s = dropped w

  after_wait-Settled :
      (o : Result (Unit {0})) (w : W)
      → HasPod c v req true w
      → HasService c v req true w
      → Settled c v req (after_wait c req o w)
  unfolding after_wait
  after_wait-Settled (ok a) w p s =
      let o = get_pod_with_retry c 2 retry_delay req.namespace (pod_name c req) w in
      let same =
        (retry-Keeps c v laws 2 retry_delay req.namespace (pod_name c req) w).after w
          (still c v laws w) in
      after_get-Settled o.0 o.1 (same.0 req.namespace (pod_name c req) ∙ p)
        (same.1 req.namespace (service_name c req) ∙ s)
  after_wait-Settled (err e) w p s = dropped w

  -- The service is there where its creation has succeeded.
  after_service-Settled :
      (svc : ServiceObject) (o : Result (Unit {0})) (w0 w : W)
      → svc.name ≡ service_name c req
      → c.client.create_service req.namespace svc w0 ≡ (o, w)
      → HasPod c v req true w
      → (o ≡ ok tt → HasService c v req true w)
      → Settled c v req (after_service c req o w)
  unfolding after_service
  after_service-Settled svc (ok a) w0 w named call p made =
      let o = wait_until_schedulable c req.namespace (pod_name c req) w in
      let same = wait-Same c v laws req.namespace (pod_name c req) w in
      after_wait-Settled o.0 o.1 (same.0 req.namespace (pod_name c req) ∙ p)
        (same.1 req.namespace (service_name c req) ∙ made refl)
  after_service-Settled svc (err e) w0 w named call p made =
      (delete_pod-PodSettled w, inr (inl (svc, e, w0, w, named, call, refl)))

  after_pod-Settled :
      (decoded placed : PodObject S) (o : Result (Unit {0})) (w0 w : W)
      → placed.name ≡ pod_name c req
      → c.client.create_pod req.namespace placed w0 ≡ (o, w)
      → HasService c v req false w
      → (o ≡ ok tt → HasPod c v req true w)
      → Settled c v req (after_pod c req decoded o w)
  unfolding after_pod new_service
  after_pod-Settled decoded placed (err e) w0 w named call s made =
      (inr (inl (placed, e, w0, named, call)), inl s)
  after_pod-Settled decoded placed (ok a) w0 w named call s made =
      let svc = new_service c req decoded in
      let o = c.client.create_service req.namespace svc w in
      after_service-Settled svc o.0 w o.1 refl refl
        (laws.create_service req.namespace svc w req.namespace (pod_name c req) ∙ made refl)
        (λ h. laws.create_service_made req.namespace svc w h)

  after_decode-Settled :
      (o : Result (PodObject S)) (w : W)
      → HasPod c v req false w
      → HasService c v req false w
      → Settled c v req (after_decode c req o w)
  unfolding after_decode placed_pod
  after_decode-Settled (err e) w p s = (inl p, inl s)
  after_decode-Settled (ok decoded) w p s =
      let pod = placed_pod c req decoded in
      let o = c.client.create_pod req.namespace pod w in
      after_pod-Settled decoded pod o.0 w o.1 refl refl
        (laws.create_pod req.namespace pod w req.namespace (service_name c req) ∙ s)
        (λ h. laws.create_pod_made req.namespace pod w h)

-- CreatePodAndService, asked for a pod and a service whose names are free, either returns these names
-- with both there; or it fails, and then the pod and the service are each gone, except where the API
-- answered the creation of the object with an error, or its deletion with an error other than not
-- found: the pod's failed call is then the last that is made, and the service's is followed by the
-- deletion of the pod alone. The laws say that a creation or a deletion that succeeds takes effect, that
-- a deletion that does not find the object leaves none, and that no call touches other objects.
pub create_pod_and_service-Settled :
    {W S : Type 0} (c : KubernetesClient W S) (v : ClusterView W) (laws : ClusterLaws c v)
    (req : ProvisionRequest) (w : W)
    → v.pods w req.namespace (pod_name c req) ≡ false
    → v.services w req.namespace (service_name c req) ≡ false
    → Settled c v req (create_pod_and_service c req w)
unfolding create_pod_and_service
create_pod_and_service-Settled c v laws req w p s =
    let o = ensure_namespace c req.namespace w in
    let same = (ensure_namespace-Keeps c v laws req.namespace w).after w (still c v laws w) in
    let p1 = same.0 req.namespace (pod_name c req) ∙ p in
    let s1 = same.1 req.namespace (service_name c req) ∙ s in
    elim (Result-cases o.0) [
      | inr (x, e) ↦ rw e (inl p1, inl s1)
      | inl (a, e) ↦
          let read = laws.unmarshal req.pod_spec_yml o.1 in
          let u = c.client.unmarshal req.pod_spec_yml o.1 in
          rw e (
            after_decode-Settled c v laws req u.0 u.1 (read.0 req.namespace (pod_name c req) ∙ p1)
              (read.1 req.namespace (service_name c req) ∙ s1))
    ]
