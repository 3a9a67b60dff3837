-- ===== src/Dynamo/Locks.antt =====
-- ReserveNodePort of internal/stack/dynamodb.go leaves the row of an owned node port alone.
use container_provisioner_k.Base.{
  Option, ℕ, zero, suc, ◌+◌, ◌-◌, String, ◌==◌, string_eq, nat_eq, refl, inl, inr, Bool-cases,
}
use container_provisioner_k.Errors.{Result, ok, err, is_condition_failed}
use container_provisioner_k.Op.{Op}
use container_provisioner_k.Models.{Time}
use container_provisioner_k.Service.Upholds.{Keeps, bind-Keeps, attempt-Keeps}
use container_provisioner_k.Dynamo.Ports
use container_provisioner_k.Dynamo.{DynamoRepository}
use container_provisioner_k.Dynamo.Items.{find}
use container_provisioner_k.Dynamo.Table.{
  DynamoTable, owner, ClientLaws, ExpressionLaws, put_row, update_row,
}
use container_provisioner_k.Dynamo.Owned.{IsOwned, commit-Keeps, now_rfc3339-Keeps}

module _ {W : Type 0} (r : DynamoRepository W) (t : DynamoTable W) (laws : ClientLaws r t)
    (meaning : ExpressionLaws t) (sk : String) (s : Option String) where
  reclaim_outcome-Keeps :
      (port : ℕ) (next : Op W ℕ)
      → Keeps (IsOwned t sk s) next
      → (o : Result (Unit {0})) → Keeps (IsOwned t sk s) (Ports.reclaim_outcome r port next o)
  unfolding Ports.reclaim_outcome
  reclaim_outcome-Keeps port next kept (ok a) = record { after = λ w owned. owned }
  reclaim_outcome-Keeps port next kept (err e) = kept

  put_outcome-Keeps :
      (now : String) (moment : Time) (port : ℕ) (next : Op W ℕ)
      → Keeps (IsOwned t sk s) next
      → (o : Result (Unit {0}))
      → Keeps (IsOwned t sk s) (Ports.put_outcome r now moment port next o)
  unfolding Ports.put_outcome find
  put_outcome-Keeps now moment port next kept (ok a) = record { after = λ w owned. owned }
  put_outcome-Keeps now moment port next kept (err e) = elim (Bool-cases (is_condition_failed e)) [
    | inl failed ↦
        let i = Ports.lock_update r now moment port in
        rw failed (
          bind-Keeps {f = Ports.reclaim_outcome r port next}
            (attempt-Keeps (
              commit-Keeps t sk s (r.client.update_item i) (update_row t i)
                (λ _ row h. meaning.lock _ row) (λ w. laws.update i w refl)))
            (reclaim_outcome-Keeps port next kept))
    | inr other ↦ rw other (record { after = λ w owned. owned })
  ]

  lock_round-Keeps :
      (now : String) (moment : Time) (port : ℕ) (next : Op W ℕ)
      → Keeps (IsOwned t sk s) next
      → Keeps (IsOwned t sk s) (Ports.lock_round r now moment port next)
  unfolding Ports.lock_round find owner
  lock_round-Keeps now moment port next kept =
      let i = Ports.lock_put r now moment port in
      bind-Keeps {f = Ports.put_outcome r now moment port next}
        (attempt-Keeps (
          commit-Keeps t sk s (r.client.put_item i) (put_row t i)
            (λ _ row h. rw (meaning.is_new _ row h) refl) (λ w. laws.put i w refl)))
        (put_outcome-Keeps now moment port next kept)

  pub reserve_from-Keeps :
      (now : String) (moment : Time) (min total start left i : ℕ)
      → Keeps (IsOwned t sk s) (Ports.reserve_from r now moment min total start left i)
  unfolding Ports.reserve_from
  reserve_from-Keeps now moment min total start zero i = record { after = λ w owned. owned }
  reserve_from-Keeps now moment min total start (suc left) i =
      lock_round-Keeps now moment _ _ (reserve_from-Keeps now moment min total start left (i + 1))

  pub reserve-Keeps : (min max : ℕ) → Keeps (IsOwned t sk s) (Ports.reserve_node_port r min max)
  unfolding Ports.reserve_node_port
  reserve-Keeps min max = record {
    after = λ w owned.
        let total = max + 1 - min in
        let drawn : IsOwned t sk s (r.random_int total w).1 =
          rw (laws.random total w "PORTS" sk) owned in
        let w1 = (r.random_int total w).1 in
        let w2 = (r.now w1).1 in
        let moment =
          (now_rfc3339-Keeps r t laws sk s).after w2
            ((now_rfc3339-Keeps r t laws sk s).after w1 drawn) in
        elim (Bool-cases (total == 0)) [
          | inl e ↦ rw e owned
          | inr e ↦ rw e (
              (reserve_from-Keeps (r.times.format (r.now w1).0) (r.now w2).0 min total
                  (r.random_int total w).0 total 0).after
                (r.now w2).1 moment)
        ];
  }
