-- ===== src/Cluster/Provision.antt =====
-- CreatePodAndService of internal/stack/kubernetes.go, with its rollback, and DeletePodAndService.
use container_provisioner_k.Base.{◌*◌, ◌^◌, String, if◌then◌else◌, ◌==◌, string_eq}
use container_provisioner_k.Base.Int.{pos}
use container_provisioner_k.Config.{Duration}
use container_provisioner_k.Errors.{Result, ok, err}
use container_provisioner_k.Op.{Op, pure, raise, lift, attempt, ◌>>=◌}
use container_provisioner_k.Kubernetes.{ProvisionRequest, ProvisionResult}
use container_provisioner_k.Cluster.{
  KubernetesClient, wrapped, map_pod_phase_to_status, ensure_namespace, pod_name, service_name,
  placed_pod, new_service, wait_until_schedulable, get_pod_with_retry, refused_unless,
}
use container_provisioner_k.Cluster.Api.{PodObject, PodView}

-- 200*time.Millisecond
abbrev pub retry_delay : Duration
retry_delay = pos (200 * 10 ^ 6)

module _ {W S : Type 0} (c : KubernetesClient W S) where
  -- The deletions before a return, whose errors are ignored.
  abbrev pub drop_pod : ProvisionRequest → Op W (Result (Unit {0}))
  drop_pod req = attempt (c.client.delete_pod req.namespace (pod_name c req))

  abbrev pub drop_service : ProvisionRequest → Op W (Result (Unit {0}))
  drop_service req = attempt (c.client.delete_service req.namespace (service_name c req))

  -- What CreatePodAndService does with the outcome of each call, from the last one to the first.
  unfoldable pub after_get : ProvisionRequest → Result PodView → Op W ProvisionResult
  after_get req (ok pod) = pure (record {
    pod_id = pod_name c req;
    service_name = service_name c req;
    node_id = pod.node_name;
    status = map_pod_phase_to_status pod.phase;
  })
  after_get req (err e) =
      drop_service req >>= λ s. drop_pod req >>= λ p. raise (wrapped "get pod after scheduling: " e)

  unfoldable pub after_wait : ProvisionRequest → Result (Unit {0}) → Op W ProvisionResult
  unfolding after_get get_pod_with_retry
  after_wait req (ok a) =
      attempt (get_pod_with_retry c 2 retry_delay req.namespace (pod_name c req)) >>= λ outcome.
      after_get req outcome
  after_wait req (err e) = drop_service req >>= λ s. drop_pod req >>= λ p. raise e

  unfoldable pub after_service : ProvisionRequest → Result (Unit {0}) → Op W ProvisionResult
  unfolding after_wait wait_until_schedulable
  after_service req (ok a) =
      attempt (wait_until_schedulable c req.namespace (pod_name c req)) >>= λ outcome.
      after_wait req outcome
  after_service req (err e) = drop_pod req >>= λ p. raise (wrapped "create service: " e)

  unfoldable pub after_pod :
      ProvisionRequest → PodObject S → Result (Unit {0}) → Op W ProvisionResult
  unfolding after_service new_service
  after_pod req pod (ok a) =
      attempt (c.client.create_service req.namespace (new_service c req pod)) >>= λ outcome.
      after_service req outcome
  after_pod req pod (err e) = raise (wrapped "create pod: " e)

  unfoldable pub after_decode : ProvisionRequest → Result (PodObject S) → Op W ProvisionResult
  unfolding after_pod placed_pod
  after_decode req (ok pod) =
      attempt (c.client.create_pod req.namespace (placed_pod c req pod)) >>= λ outcome.
      after_pod req pod outcome
  after_decode req (err e) = raise (wrapped "decode pod spec: " e)

  unfoldable pub create_pod_and_service : ProvisionRequest → Op W ProvisionResult
  unfolding after_decode ensure_namespace
  create_pod_and_service req = ensure_namespace c req.namespace >>= λ u.
      attempt (c.client.unmarshal req.pod_spec_yml) >>= λ outcome. after_decode req outcome

  abbrev delete_named : String → String → Op W (Unit {0})
  delete_named ns name =
      if name == ""
      then pure tt
      else (attempt (c.client.delete_service ns name) >>= λ outcome.
          lift (refused_unless c c.client.is_not_found (wrapped "delete service: ") outcome))

  unfoldable pub delete_pod_and_service : String → String → String → Op W (Unit {0})
  delete_pod_and_service ns pod_id name = delete_named ns name >>= λ u.
      attempt (c.client.delete_pod ns pod_id) >>= λ outcome.
      lift (refused_unless c c.client.is_not_found (wrapped "delete pod: ") outcome)
