-- ===== src/Service/Upholds/Clean.antt =====
-- A cleanup keeps what its calls keep.
use container_provisioner_k.Base.{
  suc, ◌&&◌, ◌||◌, String, Bool, true, false, List, [], ◌∷◌, inl, inr, Bool-cases, ◌==◌, string_eq,
  length,
}
use container_provisioner_k.Errors.{Result, ok, err}
use container_provisioner_k.Op.{Op, Outcome-cases}
use container_provisioner_k.Models.{Time, Stack}
use container_provisioner_k.Kubernetes.{PodInfo}
use container_provisioner_k.Validator.{has_key}
use container_provisioner_k.Service.{Service}
use container_provisioner_k.Service.Upholds.{
  Keeps, bind-Keeps, attempt-Keeps, finish-Keeps, Upholds,
}
use container_provisioner_k.Service.Upholds.Query.{list_all-Keeps}
use container_provisioner_k.Service.Cleanup.{
  Counters, completed, discard, tally, is_expired, is_err, resource_error, expire_items,
  missing_items, missing_if_listed, check_resources, keeps_pod, claimed_by_stack, delete_orphan,
  orphan_items, clean_orphans, clean_rest, clean_from, cleanup_expired_and_orphaned, no_counts,
  is_recent, registered_pods,
}

module _ {W Q : Type 0} {s : Service W Q} {P : W → Type 0} (u : Upholds s P) where
  discard-Keeps : (st : Stack) → Keeps P (discard s st)
  unfolding discard
  discard-Keeps st =
      bind-Keeps (attempt-Keeps (u.delete_pod st.namespace st.pod_id st.service_name)) (λ pod.
        finish-Keeps (attempt-Keeps (u.delete st.stack_id))
          (λ removed. ok (is_err pod || is_err removed)))

  -- A loop passes a stack over or cleans it and goes on.
  choose-Keeps :
      {A : Type 0} (b : Bool) {m n : Op W A}
      → Keeps P m
      → Keeps P n
      → Keeps P (elim b as (λ _. Op W A) [ true ↦ m | false ↦ n ])
  choose-Keeps true km kn = km
  choose-Keeps false km kn = kn

  expire_items-Keeps :
      (now : Time) (sts : List Stack) (c : Counters) → Keeps P (expire_items s now sts c)
  unfolding expire_items
  expire_items-Keeps now [] c = record { after = λ w h. h }
  expire_items-Keeps now (st ∷ sts) c =
      choose-Keeps (is_expired now st)
        (bind-Keeps (discard-Keeps st) (λ failed. expire_items-Keeps now sts _))
        (expire_items-Keeps now sts c)

  missing_items-Keeps :
      (pods services : List String) (sts : List Stack) (c : Counters)
      → Keeps P (missing_items s pods services sts c)
  unfolding missing_items
  missing_items-Keeps pods services [] c = record { after = λ w h. h }
  missing_items-Keeps pods services (st ∷ sts) c =
      choose-Keeps (has_key st.pod_id pods && has_key st.service_name services)
        (missing_items-Keeps pods services sts c)
        (bind-Keeps (discard-Keeps st) (λ failed. missing_items-Keeps pods services sts _))

  listed-Keeps :
      (pods services : Result (List String)) (sts : List Stack) (c : Counters)
      → Keeps P (missing_if_listed s pods services sts c)
  listed-Keeps (ok pods) (ok services) sts c = missing_items-Keeps pods services sts c
  listed-Keeps (ok pods) (err e) sts c = record { after = λ w h. h }
  listed-Keeps (err e) services sts c = record { after = λ w h. h }

  check_resources-Keeps : (sts : List Stack) (c : Counters) → Keeps P (check_resources s sts c)
  unfolding check_resources
  check_resources-Keeps sts c = bind-Keeps (attempt-Keeps (u.pods s.cfg.namespace)) (λ pods.
      bind-Keeps (attempt-Keeps (u.services s.cfg.namespace)) (λ services.
        listed-Keeps pods services sts
          (resource_error (is_err services) (resource_error (is_err pods) c))))

  claimed_by_stack-Keeps :
      (pod_id : String) (info : PodInfo) → Keeps P (claimed_by_stack s pod_id info)
  unfolding claimed_by_stack
  claimed_by_stack-Keeps pod_id info = elim (Bool-cases (info.stack_id == "")) [
    | inl b ↦ rw b (record { after = λ w h. h })
    | inr b ↦
        rw b (finish-Keeps (attempt-Keeps (u.get info.stack_id)) (λ r. ok (keeps_pod s pod_id r)))
  ]

  delete_orphan-Keeps : (pod_id : String) (c : Counters) → Keeps P (delete_orphan s pod_id c)
  unfolding delete_orphan
  delete_orphan-Keeps pod_id c =
      finish-Keeps (attempt-Keeps (u.delete_pod s.cfg.namespace pod_id ""))
        (λ r. ok (tally (is_err r) (record c { orphan_pod_targets = suc c.orphan_pod_targets })))

  orphan_items-Keeps :
      (now : Time) (registered : List String) (pods : List (String × PodInfo)) (c : Counters)
      → Keeps P (orphan_items s now registered pods c)
  unfolding orphan_items
  orphan_items-Keeps now registered [] c = record { after = λ w h. h }
  orphan_items-Keeps now registered ((pod_id, info) ∷ pods) c =
      choose-Keeps (has_key pod_id registered || is_recent now info)
        (orphan_items-Keeps now registered pods c)
        (bind-Keeps (claimed_by_stack-Keeps pod_id info) (λ claimed.
          choose-Keeps claimed (orphan_items-Keeps now registered pods c) (
            bind-Keeps (delete_orphan-Keeps pod_id c)
              (λ c'. orphan_items-Keeps now registered pods c'))))

  clean_orphans-Keeps :
      (now : Time) (r : Result (List Stack)) (c : Counters) → Keeps P (clean_orphans s now r c)
  unfolding clean_orphans
  clean_orphans-Keeps now (err e) c = record { after = λ w h. h }
  clean_orphans-Keeps now (ok sts) c = record {
    after = λ w h.
        let k = (u.pods_created s.cfg.namespace).after w h in
        elim (Outcome-cases (s.k8s.list_pods_with_creation s.cfg.namespace w)) [
          | inl (pods, w1, e) ↦
              rw e ((orphan_items-Keeps now (registered_pods sts) pods c).after w1 (rw e at k))
          | inr (x, w1, e) ↦ rw e (rw e at k)
        ];
  }

  clean_rest-Keeps :
      (now : Time) (r : Result (List Stack)) (c : Counters) → Keeps P (clean_rest s now r c)
  unfolding clean_rest
  clean_rest-Keeps now (err e) c = record { after = λ w h. h }
  clean_rest-Keeps now (ok sts) c = bind-Keeps (check_resources-Keeps sts c) (λ c'.
      bind-Keeps (attempt-Keeps (list_all-Keeps u)) (λ again. clean_orphans-Keeps now again c'))

  clean_from-Keeps : (now : Time) (r : Result (List Stack)) → Keeps P (clean_from s now r)
  unfolding clean_from
  clean_from-Keeps now (err e) = record { after = λ w h. h }
  clean_from-Keeps now (ok items) = bind-Keeps (expire_items-Keeps now items no_counts) (λ c.
      bind-Keeps (attempt-Keeps (list_all-Keeps u)) (λ remaining.
        finish-Keeps (clean_rest-Keeps now remaining c) (λ c'. ok (completed (length items) c'))))

  pub cleanup-Keeps : Keeps P (cleanup_expired_and_orphaned s)
  unfolding cleanup_expired_and_orphaned
  cleanup-Keeps = record {
    after = λ w h.
        (bind-Keeps (attempt-Keeps (list_all-Keeps u))
            (λ items. clean_from-Keeps (s.now w).0 items)).after
          (s.now w).1 (u.clock w h);
  }
