-- ===== src/Repository/Invariant.antt =====
-- Consistency of the in-memory repository: the stack table and the port table agree.
use container_provisioner_k.Base.{
  ℕ, String, true, none, some, ◌==◌, nat_eq, string_eq, ◌≡◌, ◌≢◌, refl, arith, eq_iff, nat_beq_iff,
  Bool-cases, inl, inr,
}
use container_provisioner_k.Base.Dict.{lookup, insert, erase, lookup-insert, lookup-erase}
use container_provisioner_k.Models.{Time, Status, Stack, BatchDeleteJob}
use container_provisioner_k.Repository
use container_provisioner_k.Repository.{InMemoryRepository}
use container_provisioner_k.Repository.Cases.{
  create_cases, delete_cases, reserve_cases, release_cases, update_cases,
}
use container_provisioner_k.Repository.Reserve.{probe-some}
use container_provisioner_k.Repository.Ports.{
  has_port, lookup-claim_ports, lookup-drop_ports, lookup_of_all_reserved,
}

-- Each stack is stored under its own non-empty id and owns all its ports; each owned port belongs to
-- a stored stack that is mapped to it.
pub record IsConsistent (r : InMemoryRepository) : Type 0 where
  pub keyed : (sid : String) (st : Stack) → lookup sid r.stacks ≡ some st → st.stack_id ≡ sid
  pub named : lookup "" r.stacks ≡ none
  pub owned :
      (sid : String) (st : Stack) (n : ℕ)
      → lookup sid r.stacks ≡ some st
      → has_port n st.ports ≡ true
      → lookup n r.ports ≡ some sid
  pub backed :
      (n : ℕ) (sid : String)
      → lookup n r.ports ≡ some sid
      → sid ≢ ""
      → (st : Stack) × (lookup sid r.stacks ≡ some st) × (has_port n st.ports ≡ true)

module _ {r : InMemoryRepository} (v : IsConsistent r) where
  -- The state after the writes of Create, once its guards have passed.
  stored-IsConsistent :
      (st : Stack)
      → st.stack_id ≢ ""
      → lookup st.stack_id r.stacks ≡ none
      → Repository.all_reserved r.ports st.ports ≡ true
      → IsConsistent (record r {
        stacks = insert st.stack_id st r.stacks;
        ports = Repository.claim_ports st.stack_id st.ports r.ports;
      })
  stored-IsConsistent st h fresh a = record {
    keyed = λ sid x p.
        ground
          (arith, lookup-insert st.stack_id sid st r.stacks, eq_iff st.stack_id sid, v.keyed sid x);
    named =
        ground (arith, lookup-insert st.stack_id "" st r.stacks, eq_iff st.stack_id "", v.named);
    owned = λ sid x n p q. ground (
      arith,
      lookup-insert st.stack_id sid st r.stacks,
      eq_iff st.stack_id sid,
      lookup-claim_ports n st.stack_id st.ports r.ports,
      v.owned sid x n,
      lookup_of_all_reserved n st.ports r.ports,
      v.named,
    );
    backed = λ n sid p q. elim (Bool-cases (has_port n st.ports)) [
      | inl mine ↦ (
        st,
        ground (
          arith,
          lookup-claim_ports n st.stack_id st.ports r.ports,
          lookup-insert st.stack_id sid st r.stacks,
          eq_iff st.stack_id sid,
        ),
        mine,
      )
      | inr other ↦
          let (x, e, u) =
            v.backed n sid (ground (arith, lookup-claim_ports n st.stack_id st.ports r.ports)) q in
          (
            x,
            ground (
              arith,
              e,
              fresh,
              lookup-insert st.stack_id sid st r.stacks,
              eq_iff st.stack_id sid,
            ),
            u,
          )
    ];
  }

  pub create-IsConsistent :
      (st : Stack) → st.stack_id ≢ "" → IsConsistent (Repository.create st r).1
  create-IsConsistent st h =
      create_cases (λ o. IsConsistent o.1) st r (λ e. v) (stored-IsConsistent st h)

  removed-IsConsistent :
      (sid : String) (st : Stack)
      → lookup sid r.stacks ≡ some st
      → IsConsistent
          (record r { stacks = erase sid r.stacks; ports = Repository.drop_ports st.ports r.ports })
  removed-IsConsistent sid st e = record {
    keyed = λ s x p. ground (arith, lookup-erase sid s r.stacks, v.keyed s x);
    named = ground (arith, lookup-erase sid "" r.stacks, v.named);
    owned = λ s x n p q. ground (
      arith,
      lookup-erase sid s r.stacks,
      eq_iff sid s,
      lookup-drop_ports n st.ports r.ports,
      v.owned s x n,
      v.owned sid st n,
    );
    backed = λ n s p q.
        let (x, f, u) = v.backed n s (ground (arith, lookup-drop_ports n st.ports r.ports)) q in
        (
          x,
          ground (
            arith,
            f,
            u,
            e,
            lookup-erase sid s r.stacks,
            eq_iff sid s,
            lookup-drop_ports n st.ports r.ports,
          ),
          u,
        );
  }

  pub delete-IsConsistent : (sid : String) → IsConsistent (Repository.delete sid r).1
  delete-IsConsistent sid =
      delete_cases (λ o. IsConsistent o.1) sid r (λ e. v) (removed-IsConsistent sid)

  -- A port that was free or reserved is reserved or freed.
  reserved-IsConsistent :
      (port : ℕ)
      → lookup port r.ports ≡ none
      → IsConsistent (record r { ports = insert port "" r.ports })
  reserved-IsConsistent port e = record {
    keyed = v.keyed;
    named = v.named;
    owned = λ s x n p q.
        ground (arith, lookup-insert port n "" r.ports, nat_beq_iff port n, v.owned s x n);
    backed = λ n s p q. v.backed n s (ground (arith, lookup-insert port n "" r.ports)) q;
  }

  pub reserve-IsConsistent :
      (draw min max : ℕ) → IsConsistent (Repository.reserve_node_port draw min max r).1
  reserve-IsConsistent draw min max =
      reserve_cases (λ o. IsConsistent o.1) draw min max r (λ h. v) (λ h e. v)
        (λ port h e. reserved-IsConsistent port (probe-some min _ _ r.ports _ 0 port e).0)

  freed-IsConsistent :
      (port : ℕ)
      → lookup port r.ports ≡ some ""
      → IsConsistent (record r { ports = erase port r.ports })
  freed-IsConsistent port e = record {
    keyed = v.keyed;
    named = v.named;
    owned = λ s x n p q.
        ground (arith, lookup-erase port n r.ports, nat_beq_iff port n, v.owned s x n, v.named);
    backed = λ n s p q. v.backed n s (ground (arith, lookup-erase port n r.ports)) q;
  }

  pub release-IsConsistent : (port : ℕ) → IsConsistent (Repository.release_node_port port r).1
  release-IsConsistent port =
      release_cases (λ o. IsConsistent o.1) port r (λ h. v) (freed-IsConsistent port)

  -- A new status leaves the id and the ports of a stack alone.
  updated-IsConsistent :
      (sid : String) (st st' : Stack)
      → lookup sid r.stacks ≡ some st
      → st'.stack_id ≡ st.stack_id
      → st'.ports ≡ st.ports
      → IsConsistent (record r { stacks = insert sid st' r.stacks })
  updated-IsConsistent sid st st' e same_id same_ports = record {
    keyed = λ s x p.
        ground (arith, lookup-insert sid s st' r.stacks, eq_iff sid s, v.keyed s x, v.keyed sid st);
    named = ground (arith, lookup-insert sid "" st' r.stacks, eq_iff sid "", v.named);
    owned = λ s x n p q.
        ground
          (arith, lookup-insert sid s st' r.stacks, eq_iff sid s, v.owned s x n, v.owned sid st n);
    backed = λ n s p q. elim (Bool-cases (sid == s)) [
      | inl hit ↦
          let (x, f, u) = v.backed n s p q in
          (st', ground (arith, lookup-insert sid s st' r.stacks), ground (arith, eq_iff sid s))
      | inr miss ↦
          let (x, f, u) = v.backed n s p q in
          (x, ground (arith, lookup-insert sid s st' r.stacks), u)
    ];
  }

  pub update_status-IsConsistent :
      (now : Time) (sid : String) (status : Status) (node_id : String)
      → IsConsistent (Repository.update_status now sid status node_id r).1
  update_status-IsConsistent now sid status node_id =
      update_cases (λ o. IsConsistent o.1) now sid status node_id r (λ e. v)
        (λ st e. updated-IsConsistent sid st _ e refl refl)

module _ {r : InMemoryRepository} (v : IsConsistent r) (job : BatchDeleteJob) where
  same_tables :
      (r' : InMemoryRepository) → r'.stacks ≡ r.stacks → r'.ports ≡ r.ports → IsConsistent r'
  same_tables r' p q = record {
    keyed = rw p v.keyed;
    named = rw p v.named;
    owned = rw (p, q) v.owned;
    backed = rw (p, q) v.backed;
  }

  pub jobs-IsConsistent :
      IsConsistent (Repository.create_batch_delete_job job r).1
      × IsConsistent (Repository.update_batch_delete_job job r).1
  unfolding Repository.create_batch_delete_job Repository.update_batch_delete_job
  jobs-IsConsistent =
      (same_tables _ (ground arith) (ground arith), same_tables _ (ground arith) (ground arith))

pub empty-IsConsistent : IsConsistent Repository.empty_repository
unfolding lookup
empty-IsConsistent = record {
  keyed = λ sid st p. cc;
  named = refl;
  owned = λ sid st n p q. cc;
  backed = λ n sid p q. absurd (cc);
}
