-- ===== src/Dynamo/Reserve.antt =====
-- Which port ReserveNodePort of internal/stack/dynamodb.go returns.
use container_provisioner_k.Base.{
  some, ℕ, zero, suc, ◌+◌, ◌-◌, ◌%◌, ◌<◌, ◌≤◌, String, none, ◌==◌, nat_eq, ◌≡◌, none-some, refl,
  ◌∙◌, sym, inl, inr, Bool-cases, Option-cases, arith,
}
use container_provisioner_k.Errors.{Result, ok, err, is_condition_failed}
use container_provisioner_k.Op.{Op, result-distinct}
use container_provisioner_k.Base.Dict.{beq_refl}
use container_provisioner_k.Models.{Time}
use container_provisioner_k.Dynamo.{DynamoRepository}
use container_provisioner_k.Dynamo.Items.{find}
use container_provisioner_k.Dynamo.Keys.{port_sk}
use container_provisioner_k.Dynamo.Ports.{
  reclaim_outcome, put_outcome, lock_round, reserve_from, reserve_node_port, lock_put, lock_update,
}
use container_provisioner_k.Dynamo.Table.{DynamoTable, owner, ClientLaws, ExpressionLaws, write_all}
use container_provisioner_k.Dynamo.Locks

module _ {W : Type 0} (r : DynamoRepository W) (t : DynamoTable W) (laws : ClientLaws r t)
    (meaning : ExpressionLaws t) where
  -- The port belongs to no stack.
  abbrev pub IsFree : ℕ → W → Type 0
  IsFree port w = owner (t.rows w "PORTS" (port_sk port)) ≡ none

  put-IsFree :
      (now : String) (moment : Time) (port : ℕ) (w : W)
      → (r.client.put_item (lock_put r now moment port) w).0 ≡ ok tt
      → IsFree port (r.client.put_item (lock_put r now moment port) w).1
  unfolding write_all owner find
  put-IsFree now moment port w h =
      let (admitted, made) = (laws.put (lock_put r now moment port) w refl).made h in
      rw (made "PORTS" (port_sk port), beq_refl (port_sk port)) refl

  update-IsFree :
      (now : String) (moment : Time) (port : ℕ) (w : W)
      → (r.client.update_item (lock_update r now moment port) w).0 ≡ ok tt
      → IsFree port (r.client.update_item (lock_update r now moment port) w).1
  unfolding write_all find
  update-IsFree now moment port w h =
      let (admitted, made) = (laws.update (lock_update r now moment port) w refl).made h in
      rw (made "PORTS" (port_sk port), beq_refl (port_sk port))
        (meaning.lock _ _ ∙ meaning.stale _ _ refl admitted.0)

  -- A port that an operation returns satisfies `P` in the world that it leaves.
  abbrev Returns : (ℕ → W → Type 0) → Op W ℕ → Type 0
  Returns P m = (w : W) (port : ℕ) → (m w).0 ≡ ok port → P port (m w).1

  reclaim_outcome-Returns :
      (P : ℕ → W → Type 0) (port : ℕ) (next : Op W ℕ) (o : Result (Unit {0})) (w : W) (found : ℕ)
      → (o ≡ ok tt → P port w)
      → Returns P next
      → (reclaim_outcome r port next o w).0 ≡ ok found
      → P found (reclaim_outcome r port next o w).1
  unfolding reclaim_outcome
  reclaim_outcome-Returns P port next (ok a) w found free returned h =
      let same : port ≡ found = cc in rw same at (free refl)
  reclaim_outcome-Returns P port next (err e) w found free returned h = returned w found h

  put_outcome-Returns :
      (P : ℕ → W → Type 0) (now : String) (moment : Time) (port : ℕ) (next : Op W ℕ)
      → ((w : W) → IsFree port w → P port w)
      → Returns P next
      → (o : Result (Unit {0})) (w : W) (found : ℕ) → (o ≡ ok tt → P port w)
      → (put_outcome r now moment port next o w).0 ≡ ok found
      → P found (put_outcome r now moment port next o w).1
  unfolding put_outcome
  put_outcome-Returns P now moment port next make returned (ok a) w found free h =
      let same : port ≡ found = cc in rw same at (free refl)
  put_outcome-Returns P now moment port next make returned (err e) w found free h =
      elim (Bool-cases (is_condition_failed e)) [
        | inl failed ↦
            let o = r.client.update_item (lock_update r now moment port) w in
            rw failed (
              reclaim_outcome-Returns P port next o.0 o.1 found
                (λ made. make o.1 (update-IsFree now moment port w made)) returned (rw failed at h))
        | inr other ↦ absurd (result-distinct (rw other at h))
      ]

  lock_round-Returns :
      (P : ℕ → W → Type 0) (now : String) (moment : Time) (port : ℕ) (next : Op W ℕ)
      → ((w : W) → IsFree port w → P port w)
      → Returns P next
      → Returns P (lock_round r now moment port next)
  unfolding lock_round
  lock_round-Returns P now moment port next make returned w found h =
      let o = r.client.put_item (lock_put r now moment port) w in
      put_outcome-Returns P now moment port next make returned o.0 o.1 found
        (λ made. make o.1 (put-IsFree now moment port w made)) h

  -- A free port of the range.
  abbrev InRange : ℕ → ℕ → ℕ → W → Type 0
  InRange min total port w = (min ≤ port) × (port < min + total) × IsFree port w

  reserve_from-Returns :
      (now : String) (moment : Time) (min total start left i : ℕ)
      → 0 < total
      → Returns (InRange min total) (reserve_from r now moment min total start left i)
  unfolding reserve_from
  reserve_from-Returns now moment min total start zero i some_port w found h =
      absurd (result-distinct h)
  reserve_from-Returns now moment min total start (suc left) i some_port w found h =
      let low : (start + i) % total < total = ground arith in
      lock_round-Returns (InRange min total) now moment (min + (start + i) % total)
        (reserve_from r now moment min total start left (i + 1))
        (λ w' free. (omega arith, omega arith, free))
        (reserve_from-Returns now moment min total start left (i + 1) some_port) w found h

  reserve_node_port-Returns :
      (min max : ℕ) → Returns (InRange min (max + 1 - min)) (reserve_node_port r min max)
  unfolding reserve_node_port
  reserve_node_port-Returns min max w found h =
      let total = max + 1 - min in
      elim (Bool-cases (total == 0)) [
        | inl e ↦ absurd (result-distinct (rw e at h))
        | inr e ↦
            let w1 = (r.random_int total w).1 in
            let w2 = (r.now w1).1 in
            rw e (
              reserve_from-Returns (r.times.format (r.now w1).0) (r.now w2).0 min total
                (r.random_int total w).0 total 0 (ground arith) (r.now w2).1 found (rw e at h))
      ]

-- A port that ReserveNodePort returns lies between the two bounds, and it belongs to no stack, neither
-- in the table before the call nor in the table after it.
pub reserve_node_port-IsFree :
    {W : Type 0} (r : DynamoRepository W) (t : DynamoTable W)
    → ClientLaws r t
    → ExpressionLaws t
    → (min max port : ℕ) (w : W) → (reserve_node_port r min max w).0 ≡ ok port
    → (min ≤ port)
      × (port ≤ max)
      × (owner (t.rows w "PORTS" (port_sk port)) ≡ none)
      × (owner (t.rows (reserve_node_port r min max w).1 "PORTS" (port_sk port)) ≡ none)
reserve_node_port-IsFree r t laws meaning min max port w h =
    let (low, high, free) = reserve_node_port-Returns r t laws meaning min max w port h in
    let before : owner (t.rows w "PORTS" (port_sk port)) ≡ none =
      elim (Option-cases (owner (t.rows w "PORTS" (port_sk port)))) [
        | inl e ↦ e
        | inr (s, owned) ↦
            let kept =
              (Locks.reserve-Keeps r t laws meaning (port_sk port) (some s) min max).after w
                owned in
            absurd (none-some (sym free ∙ kept))
      ] in
    (low, omega arith, before, free)
