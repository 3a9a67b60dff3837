-- ===== src/Service/Cleanup.antt =====
-- CleanupExpiredAndOrphaned of internal/stack/service.go. What it logs at the end is its result: the
-- program returns nothing. Go ranges over the maps of pods in any order; here it is the order of the
-- association list.
pub mod Balance
use container_provisioner_k.Base.{
  ℕ, suc, ◌+◌, ◌-◌, ◌*◌, ◌^◌, String, Bool, true, false, ◌&&◌, ◌||◌, not, Option, none, some, List,
  [], ◌∷◌, if◌then◌else◌, ltb, length, ◌==◌, nat_eq, string_eq,
}
use container_provisioner_k.Errors.{Error, Result, ok, err}
use container_provisioner_k.Op.{Op, pure, attempt, ◌>>=◌, ◌>>◌}
use container_provisioner_k.Models.{Time, Stack}
use container_provisioner_k.Kubernetes.{PodInfo}
use container_provisioner_k.Validator.{has_key}
use container_provisioner_k.Service.{Service}
use container_provisioner_k.Service.Query.{list_all}

pub record Counters : Type 0 where
  pub expired_targets : ℕ
  pub missing_resource_targets : ℕ
  pub orphan_pod_targets : ℕ
  pub cleaned : ℕ
  pub failures : ℕ
  pub resource_scan_errors : ℕ
  pub orphan_scan_errors : ℕ

abbrev pub no_counts : Counters
no_counts = record {
  expired_targets = 0;
  missing_resource_targets = 0;
  orphan_pod_targets = 0;
  cleaned = 0;
  failures = 0;
  resource_scan_errors = 0;
  orphan_scan_errors = 0;
}

pub data Report : Type 0 where
  list_failed : Report
  completed : ℕ → Counters → Report

abbrev pub is_err {ℓ} : {A : Type ℓ} → Result A → Bool
is_err (ok a) = false
is_err (err e) = true

-- `if failed { failures++ } else { cleaned++ }`
abbrev pub tally : Bool → Counters → Counters
tally failed c =
    if failed then record c { failures = suc c.failures } else record c { cleaned = suc c.cleaned }

abbrev pub resource_error : Bool → Counters → Counters
resource_error failed c =
    if failed
    then record c { failures = suc c.failures; resource_scan_errors = suc c.resource_scan_errors }
    else c

abbrev pub orphan_error : Counters → Counters
orphan_error c = record c {
  failures = suc c.failures;
  orphan_scan_errors = suc c.orphan_scan_errors;
}

unfoldable pub is_expired : Time → Stack → Bool
is_expired now st = ltb st.ttl_expires_at now || st.ttl_expires_at == now

-- 2 * time.Minute
abbrev pub grace : ℕ
grace = 2 * 60 * 10 ^ 9

-- Whether the pod was created after the grace cutoff. Times stop at 0, the zero Time: then every pod
-- with a time was created after the cutoff, here as in the source.
unfoldable pub is_recent : Time → PodInfo → Bool
is_recent now info = not (info.created_at == 0) && ltb (now - grace) info.created_at

unfoldable pub registered_pods : List Stack → List String
registered_pods [] = []
registered_pods (st ∷ sts) =
    let rest = registered_pods sts in if st.pod_id == "" then rest else st.pod_id ∷ rest

module _ {W Q : Type 0} (s : Service W Q) where
  -- Deletes the pod, the service and the stored stack; whether one of the two calls failed.
  unfoldable pub discard : Stack → Op W Bool
  discard st = do
    pod ← attempt (s.k8s.delete_pod_and_service st.namespace st.pod_id st.service_name)
    removed ← attempt (s.repo.delete st.stack_id)
    pure (is_err pod || is_err removed)

  unfoldable pub expire_items : Time → List Stack → Counters → Op W Counters
  expire_items now [] c = pure c
  expire_items now (st ∷ sts) c = elim (is_expired now st) [
    | false ↦ expire_items now sts c
    | true ↦ (do
      failed ← discard st
      expire_items now sts (tally failed (record c { expired_targets = suc c.expired_targets })))
  ]

  unfoldable pub missing_items : List String → List String → List Stack → Counters → Op W Counters
  missing_items pods services [] c = pure c
  missing_items pods services (st ∷ sts) c =
      elim (has_key st.pod_id pods && has_key st.service_name services) [
        | true ↦ missing_items pods services sts c
        | false ↦ (do
          failed ← discard st
          missing_items pods services sts (
              tally failed
                (record c { missing_resource_targets = suc c.missing_resource_targets })))
      ]

  abbrev pub missing_if_listed :
      Result (List String) → Result (List String) → List Stack → Counters → Op W Counters
  missing_if_listed (ok pods) (ok services) sts c = missing_items pods services sts c
  missing_if_listed _ _ sts c = pure c

  unfoldable pub check_resources : List Stack → Counters → Op W Counters
  check_resources sts c = do
    pods ← attempt (s.k8s.list_pods s.cfg.namespace)
    services ← attempt (s.k8s.list_services s.cfg.namespace)
    missing_if_listed pods services sts
        (resource_error (is_err services) (resource_error (is_err pods) c))

  -- Whether the stack that the pod is labelled with keeps it: it cannot be read, or has this pod.
  abbrev pub keeps_pod : String → Result (Option Stack) → Bool
  keeps_pod pod_id (err e) = true
  keeps_pod pod_id (ok none) = false
  keeps_pod pod_id (ok (some st)) = st.pod_id == pod_id

  unfoldable pub claimed_by_stack : String → PodInfo → Op W Bool
  claimed_by_stack pod_id info =
      if info.stack_id == ""
      then pure false
      else (do found ← attempt (s.repo.get info.stack_id); pure (keeps_pod pod_id found))

  unfoldable pub delete_orphan : String → Counters → Op W Counters
  delete_orphan pod_id c = do
    r ← attempt (s.k8s.delete_pod_and_service s.cfg.namespace pod_id "")
    pure (tally (is_err r) (record c { orphan_pod_targets = suc c.orphan_pod_targets }))

  unfoldable pub orphan_items :
      Time → List String → List (String × PodInfo) → Counters → Op W Counters
  orphan_items now registered [] c = pure c
  orphan_items now registered ((pod_id, info) ∷ pods) c =
      elim (has_key pod_id registered || is_recent now info) [
        | true ↦ orphan_items now registered pods c
        | false ↦ (do
          claimed ← claimed_by_stack pod_id info
          elim claimed [
            | true ↦ orphan_items now registered pods c
            | false ↦ (do c' ← delete_orphan pod_id c; orphan_items now registered pods c')
          ])
      ]

  unfoldable pub clean_orphans : Time → Result (List Stack) → Counters → Op W Counters
  clean_orphans now (err e) c = pure (orphan_error c)
  clean_orphans now (ok sts) c = do
    pods ← attempt (s.k8s.list_pods_with_creation s.cfg.namespace)
    elim pods [
      | err e ↦ pure (orphan_error c)
      | ok listed ↦ orphan_items now (registered_pods sts) listed c
    ]

  -- From the second ListAll on.
  unfoldable pub clean_rest : Time → Result (List Stack) → Counters → Op W Counters
  clean_rest now (err e) c = pure (orphan_error c)
  clean_rest now (ok sts) c = do
    c' ← check_resources sts c
    again ← attempt (list_all s)
    clean_orphans now again c'

  unfoldable pub clean_from : Time → Result (List Stack) → Op W Report
  clean_from now (err e) = pure list_failed
  clean_from now (ok items) = do
    c ← expire_items now items no_counts
    remaining ← attempt (list_all s)
    c' ← clean_rest now remaining c
    pure (completed (length items) c')

  unfoldable pub cleanup_expired_and_orphaned : Op W Report
  cleanup_expired_and_orphaned w =
      let (now, w1) = s.now w in (do items ← attempt (list_all s); clean_from now items) w1
