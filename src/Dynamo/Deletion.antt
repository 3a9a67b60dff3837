-- ===== src/Dynamo/Deletion.antt =====
-- What Delete of internal/stack/dynamodb.go leaves in the table, and what Get then reads.
use mathlib.Core.Path.{subst}
use container_provisioner_k.Base.{
  String, Bool, true, false, Option, none, some, List, [], ◌∷◌, map, All, All-map, ◌==◌, string_eq,
  ◌≡◌, ◌≢◌, refl, sym, ◌∙◌, inl, inr, Bool-cases, arith, eq_iff, if◌then◌else◌,
}
use container_provisioner_k.Base.Dict.{beq_refl}
use container_provisioner_k.Errors.{Error, ok, err}
use container_provisioner_k.Op.{Outcome-cases, Result-cases, result-distinct}
use container_provisioner_k.Models.{PortMapping, Stack}
use container_provisioner_k.Dynamo.{
  DynamoRepository, delete, delete_items, delete_found, get, port_delete, stack_delete, stack_read,
}
use container_provisioner_k.Dynamo.Client.{delete_write}
use container_provisioner_k.Dynamo.Create.{ok_inj}
use container_provisioner_k.Dynamo.Failures.{tx_condition_failed_at}
use container_provisioner_k.Dynamo.Items.{no_entry, find}
use container_provisioner_k.Dynamo.Keys.{port_sk, stack_meta_pk}
use container_provisioner_k.Dynamo.Owned.{stack_pk_lem}
use container_provisioner_k.Dynamo.Refinement.{deletes_tables}
use container_provisioner_k.Dynamo.Table.{
  Rows, DynamoTable, write_row, write_all, ClientLaws, RowWrite, delete_row, transact_row,
}

module _ {W : Type 0} (r : DynamoRepository W) (t : DynamoTable W) where
  abbrev delete_rows : List PortMapping → List RowWrite
  delete_rows ps = map (transact_row t) (map (λ p. delete_write (port_delete r p)) ps)

  -- A row that is gone stays so.
  deletes-none :
      (ps : List PortMapping) (rows : Rows) (sk : String)
      → rows "PORTS" sk ≡ none
      → write_all (delete_rows ps) rows "PORTS" sk ≡ none
  unfolding write_all write_row find
  deletes-none [] rows sk gone = gone
  deletes-none (p ∷ ps) rows sk gone =
      deletes-none ps (write_row (delete_row t (port_delete r p)) rows) sk
        (elim (Bool-cases (port_sk p.node_port == sk)) [
          | inl same ↦ rw same refl
          | inr other ↦ rw other gone
        ])

  deletes-gone :
      (ps : List PortMapping) (rows : Rows)
      → All (λ p. write_all (delete_rows ps) rows "PORTS" (port_sk p.node_port) ≡ none) ps
  unfolding write_all write_row find
  deletes-gone [] rows = tt
  deletes-gone (p ∷ ps) rows = (
    deletes-none ps (write_row (delete_row t (port_delete r p)) rows) (port_sk p.node_port)
        (rw (beq_refl (port_sk p.node_port)) refl),
    deletes-gone ps (write_row (delete_row t (port_delete r p)) rows),
  )

  -- The rows of the stacks are not those of the ports.
  deletes-stack :
      (ps : List PortMapping) (rows : Rows) (pk sk : String)
      → pk ≢ "PORTS"
      → write_all (delete_rows ps) rows pk sk ≡ rows pk sk
  unfolding write_all write_row find
  deletes-stack [] rows pk sk h = refl
  deletes-stack (p ∷ ps) rows pk sk h =
      let other : ("PORTS" == pk) ≡ false = ground (arith, eq_iff "PORTS" pk) in
      deletes-stack ps (write_row (delete_row t (port_delete r p)) rows) pk sk h ∙ rw other refl

  stack_delete-gone :
      (st : Stack) (rows : Rows)
      → write_row (delete_row t (stack_delete r st)) rows (stack_meta_pk st.stack_id) "META" ≡ none
  unfolding write_row find
  stack_delete-gone st rows = rw (beq_refl (stack_meta_pk st.stack_id)) refl

deleted_none : (b : Bool) (e : Error) (st : Stack) → (if b then ok none else err e) ≢ ok (some st)
deleted_none true e st h = cc
deleted_none false e st h = cc

some_inj {ℓ} : {A : Type ℓ} {a b : A} → some a ≡ some b → a ≡ b
some_inj h = cc

-- What a successful Delete has done.
pub record IsDeleted {W : Type 0} (t : DynamoTable W) (st : Stack) (after : W) : Type 0 where
  pub stack_gone : t.rows after (stack_meta_pk st.stack_id) "META" ≡ none
  pub ports_gone : All (λ p. t.rows after "PORTS" (port_sk p.node_port) ≡ none) st.ports

module _ {W : Type 0} (r : DynamoRepository W) (t : DynamoTable W) (laws : ClientLaws r t) where
  made-IsDeleted :
      (st : Stack) (w : W)
      → let outcome = r.client.transact_write_items (delete_items r st) w in
        outcome.0 ≡ ok tt → IsDeleted t st outcome.1
  unfolding delete_items write_all
  made-IsDeleted st w h =
      let made =
        ((laws.transact (delete_items r st) w (refl, deletes_tables r st.ports)).made h).1 in
      let rows = write_row (delete_row t (stack_delete r st)) (t.rows w) in
      record {
        stack_gone =
            made (stack_meta_pk st.stack_id) "META"
            ∙ deletes-stack r t st.ports rows (stack_meta_pk st.stack_id) "META"
                (stack_pk_lem st.stack_id)
            ∙ stack_delete-gone r t st (t.rows w);
        ports_gone =
            All-map (λ p gone. made "PORTS" (port_sk p.node_port) ∙ gone) st.ports
              (deletes-gone r t st.ports rows);
      }

  found-IsDeleted :
      (found : Option Stack) (st : Stack) (w : W)
      → (delete_found r found w).0 ≡ ok (some st)
      → (found ≡ some st) × IsDeleted t st (delete_found r found w).1
  unfolding delete_items write_all
  found-IsDeleted none st w h = absurd (cc)
  found-IsDeleted (some st') st w h =
      elim (Result-cases (r.client.transact_write_items (delete_items r st') w).0) [
        | inl (tt, e) ↦
            let same : some st' ≡ some st = ok_inj (rw e at h) in
            (
              same,
              subst (λ s. IsDeleted t s (delete_found r (some st') w).1) (some_inj same)
                  (made-IsDeleted st' w e),
            )
        | inr (x, e) ↦ absurd (deleted_none (tx_condition_failed_at x 0) x st (rw e at h))
      ]

  delete-IsDeleted :
      (id : String) (st : Stack) (w : W)
      → (delete r id w).0 ≡ ok (some st)
      → ((get r id w).0 ≡ ok (some st)) × IsDeleted t st (delete r id w).1
  unfolding delete
  delete-IsDeleted id st w h = elim (Outcome-cases (get r id w)) [
    | inl (found, w1, e) ↦
        let (same, deleted) = found-IsDeleted found st w1 (rw e at h) in
        (rw (e, same) refl, rw e deleted)
    | inr (x, w1, e) ↦ absurd (result-distinct (rw e at h))
  ]

get-none :
    {W : Type 0} (r : DynamoRepository W) (t : DynamoTable W)
    → ClientLaws r t
    → r.consistent_read ≡ true
    → (id : String) (w : W) (found : Option Stack) → t.rows w (stack_meta_pk id) "META" ≡ none
    → (get r id w).0 ≡ ok found
    → found ≡ none
unfolding get find
get-none r t laws consistent id w found gone h =
    elim (Result-cases (r.client.get_item (stack_read r id) w).0) [
      | inl (item, e) ↦
          let same = laws.get_consistent (stack_read r id) w item refl consistent e in
          let is_item : item ≡ no_entry = sym (rw gone at same) in
          let read : ok none ≡ ok found = rw is_item at (rw e at h) in sym (ok_inj read)
      | inr (x, e) ↦ absurd (result-distinct (rw e at h))
    ]

-- When Delete returns a stack, its Get found it, the rows of its ports are gone, and a
-- consistent Get of it that answers without an error finds nothing.
pub get-delete :
    {W : Type 0} (r : DynamoRepository W) (t : DynamoTable W)
    → ClientLaws r t
    → r.consistent_read ≡ true
    → (id : String) (st : Stack) (w : W) (found : Option Stack) → (delete r id w).0 ≡ ok (some st)
    → (get r st.stack_id (delete r id w).1).0 ≡ ok found
    → ((get r id w).0 ≡ ok (some st))
      × (found ≡ none)
      × All (λ p. t.rows (delete r id w).1 "PORTS" (port_sk p.node_port) ≡ none) st.ports
get-delete r t laws consistent id st w found deleted read =
    let (before, gone) = delete-IsDeleted r t laws id st w deleted in
    (
      before,
      get-none r t laws consistent st.stack_id (delete r id w).1 found gone.stack_gone read,
      gone.ports_gone,
    )
