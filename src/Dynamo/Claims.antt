-- ===== src/Dynamo/Claims.antt =====
-- The updates by which Create of internal/stack/dynamodb.go claims the ports of a stack.
use container_provisioner_k.Base.{
  String, false, none, some, List, [], ◌∷◌, map, All, All-map, ◌==◌, string_eq, ◌≡◌, ◌≢◌, ◌⊎◌,
  none-some, refl, ◌∙◌, inl, inr, Bool-cases, arith, eq_iff,
}
use container_provisioner_k.Base.Dict.{beq_refl}
use container_provisioner_k.Models.{PortMapping}
use container_provisioner_k.Dynamo.{DynamoRepository, port_claim}
use container_provisioner_k.Dynamo.Client.{update_write}
use container_provisioner_k.Dynamo.Items.{find}
use container_provisioner_k.Dynamo.Keys.{port_sk}
use container_provisioner_k.Dynamo.Table.{
  Row, Rows, DynamoTable, owner, RowWrite, write_row, write_all, Admits, ExpressionLaws, update_row,
  transact_row,
}

owner-some : (row : Row) (id : String) → owner row ≡ some id → row ≢ none
unfolding owner
owner-some row id h e = absurd (none-some (rw e at h))

module _ {W : Type 0} (r : DynamoRepository W) (t : DynamoTable W) (meaning : ExpressionLaws t)
    (id now : String) (named : id ≢ "") where
  abbrev claim_row : PortMapping → RowWrite
  claim_row p = update_row t (port_claim r id now p)

  claim_row-same :
      (p : PortMapping) (rows : Rows)
      → rows "PORTS" (port_sk p.node_port) ≢ none
      → owner (write_row (claim_row p) rows "PORTS" (port_sk p.node_port)) ≡ some id
  unfolding write_row find
  claim_row-same p rows present =
      rw (beq_refl (port_sk p.node_port)) (meaning.claim _ _ id refl named present)

  -- A row that belongs to the stack, or that is there, stays so.
  claim_row-owner :
      (p : PortMapping) (rows : Rows) (sk : String)
      → owner (rows "PORTS" sk) ≡ some id
      → owner (write_row (claim_row p) rows "PORTS" sk) ≡ some id
  unfolding write_row find
  claim_row-owner p rows sk h = elim (Bool-cases (port_sk p.node_port == sk)) [
    | inl same ↦ rw same (meaning.claim _ _ id refl named (owner-some (rows "PORTS" sk) id h))
    | inr other ↦ rw other h
  ]

  claim_row-present :
      (p : PortMapping) (rows : Rows) (sk : String)
      → rows "PORTS" sk ≢ none
      → write_row (claim_row p) rows "PORTS" sk ≢ none
  unfolding write_row find
  claim_row-present p rows sk h = elim (Bool-cases (port_sk p.node_port == sk)) [
    | inl same ↦ rw same (owner-some _ id (meaning.claim _ _ id refl named h))
    | inr other ↦ rw other h
  ]

  abbrev claim_rows : List PortMapping → List RowWrite
  claim_rows ps = map (transact_row t) (map (λ p. update_write (port_claim r id now p)) ps)

  claims-owner :
      (ps : List PortMapping) (rows : Rows) (sk : String)
      → owner (rows "PORTS" sk) ≡ some id
      → owner (write_all (claim_rows ps) rows "PORTS" sk) ≡ some id
  unfolding write_all
  claims-owner [] rows sk h = h
  claims-owner (p ∷ ps) rows sk h =
      claims-owner ps (write_row (claim_row p) rows) sk (claim_row-owner p rows sk h)

  pub claims-owned :
      (ps : List PortMapping) (rows : Rows)
      → All (λ p. rows "PORTS" (port_sk p.node_port) ≢ none) ps
      → All (λ p. owner (write_all (claim_rows ps) rows "PORTS" (port_sk p.node_port)) ≡ some id) ps
  unfolding write_all
  claims-owned [] rows h = tt
  claims-owned (p ∷ ps) rows h = (
    claims-owner ps (write_row (claim_row p) rows) (port_sk p.node_port)
        (claim_row-same p rows h.0),
    claims-owned ps (write_row (claim_row p) rows)
        (All-map (λ q. claim_row-present p rows (port_sk q.node_port)) ps h.1),
  )

  -- The row of the stack is not one of the ports.
  pub claims-stack :
      (ps : List PortMapping) (rows : Rows) (pk sk : String)
      → pk ≢ "PORTS"
      → write_all (claim_rows ps) rows pk sk ≡ rows pk sk
  unfolding write_all write_row find
  claims-stack [] rows pk sk h = refl
  claims-stack (p ∷ ps) rows pk sk h =
      claims-stack ps (write_row (claim_row p) rows) pk sk h
      ∙ (let other : ("PORTS" == pk) ≡ false = ground (arith, eq_iff "PORTS" pk) in rw other refl)

  pub claims-admitted :
      (ps : List PortMapping) (rows : Rows)
      → Admits rows (claim_rows ps)
      → All
          (λ p.
            (rows "PORTS" (port_sk p.node_port) ≢ none)
            × (owner (rows "PORTS" (port_sk p.node_port)) ≡ none))
          ps
  unfolding find
  claims-admitted [] rows h = tt
  claims-admitted (p ∷ ps) rows h = (
    meaning.claimable _ (rows "PORTS" (port_sk p.node_port)) refl h.0,
    claims-admitted ps rows h.1,
  )

  -- The owner of any row of a port stays, or becomes the stack.
  pub claims-frame :
      (ps : List PortMapping) (rows : Rows) (sk : String)
      → All (λ p. rows "PORTS" (port_sk p.node_port) ≢ none) ps
      → (owner (write_all (claim_rows ps) rows "PORTS" sk) ≡ owner (rows "PORTS" sk))
        ⊎ (owner (write_all (claim_rows ps) rows "PORTS" sk) ≡ some id)
  unfolding write_all write_row find
  claims-frame [] rows sk present = inl refl
  claims-frame (p ∷ ps) rows sk present = elim (Bool-cases (port_sk p.node_port == sk)) [
    | inl same ↦ inr (
        claims-owner ps (write_row (claim_row p) rows) sk (
          rw same (
            meaning.claim _ _ id refl named
              (rw ((string_eq.beq_iff (port_sk p.node_port) sk).0 same) at present.0))))
    | inr other ↦
        let further =
          claims-frame ps (write_row (claim_row p) rows) sk
            (All-map (λ q. claim_row-present p rows (port_sk q.node_port)) ps present.1) in
        rw other at further
  ]
