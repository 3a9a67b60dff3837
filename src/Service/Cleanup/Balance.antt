-- ===== src/Service/Cleanup/Balance.antt =====
-- The counters of a cleanup add up, whatever the repository and the cluster answer.
use container_provisioner_k.Base.{◌+◌, ◌≡◌, string_eq}
use container_provisioner_k.Errors.{Result, ok, err}
use container_provisioner_k.Op.{Op}
use container_provisioner_k.Service.{Service}
use container_provisioner_k.Service.Cleanup.{Counters, Report, completed, list_failed}

-- Each target was cleaned or counted as a failure, and the other failures are the scans'.
abbrev pub IsBalanced : Counters → Type 0
IsBalanced c =
    c.cleaned + c.failures
    ≡ c.expired_targets + c.missing_resource_targets + c.orphan_pod_targets + c.resource_scan_errors
      + c.orphan_scan_errors

-- A pass succeeds, and its counters add up.
abbrev Balances : Result Counters → Type 0
Balances (ok c) = IsBalanced c
Balances (err e) = ⊥

module _ {W Q : Type 0} (s : Service W Q) where
  -- The outcome of a whole cleanup.
  abbrev pub CleanupBalances : Result Report → Type 0
  CleanupBalances (ok list_failed) = Unit
  CleanupBalances (ok (completed scanned c)) = IsBalanced c
  CleanupBalances (err e) = ⊥
