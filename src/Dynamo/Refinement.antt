-- ===== src/Dynamo/Refinement.antt =====
-- The owners of the node ports, an abstract table, and the steps that the repository of
-- internal/stack/dynamodb.go takes on it.
use container_provisioner_k.Base.{
  String, false, Option, none, some, List, [], ◌∷◌, map, All, All-map, ◌==◌, string_eq, ◌≡◌, ◌≢◌,
  refl, sym, ap, ◌∙◌, ◌⊎◌, inl, inr, Bool-cases, Option-cases, arith, eq_iff,
}
use container_provisioner_k.Op.{Outcome-cases}
use container_provisioner_k.Models.{PortMapping, Stack}
use container_provisioner_k.Dynamo.{
  DynamoRepository, create, create_items, delete, delete_items, delete_found, get, no_ports,
  stack_put, port_delete, stack_delete,
}
use container_provisioner_k.Dynamo.Client.{delete_write}
use container_provisioner_k.Dynamo.Items.{find}
use container_provisioner_k.Dynamo.Keys.{port_sk, stack_meta_pk}
use container_provisioner_k.Dynamo.Table.{
  Rows, DynamoTable, owner, write_row, write_all, Admits, SameRows, ClientLaws, ExpressionLaws,
  put_row, delete_row, transact_row, table_of,
}
use container_provisioner_k.Dynamo.Claims.{claims-frame, claims-admitted}
use container_provisioner_k.Dynamo.Create.{items_tables, port_rows, port_row}
use container_provisioner_k.Dynamo.Owners.{get-Keeps}
use container_provisioner_k.Dynamo.Owned.{stack_pk_lem}
use container_provisioner_k.Dynamo.History.{
  Call, create_call, after_call, Call-cases, quiet-IsOwned, after_call-IsOwned,
}

pub data Request : Type 0 where
  call : Call → Request
  delete_request : String → Request

-- The stack that owns a node port, by the port's sk.
abbrev pub Owners : Type 0
Owners = String → Option String

-- What a request may do to the owners: nothing; Create gives all ports of its stack, which belonged to
-- no stack, to it and leaves the others; Delete frees ports.
pub data OwnerStep : Request → Owners → Owners → Type 0 where
  idle :
      (q : Request) (before after : Owners)
      → ((sk : String) → after sk ≡ before sk)
      → OwnerStep q before after
  claim :
      (st : Stack) (before after : Owners)
      → All (λ p. before (port_sk p.node_port) ≡ none) st.ports
      → All (λ p. after (port_sk p.node_port) ≡ some st.stack_id) st.ports
      → ((sk : String)
          → (after sk ≡ before sk) ⊎ ((before sk ≡ none) × (after sk ≡ some st.stack_id)))
      → OwnerStep (call (create_call st)) before after
  free :
      (id : String) (before after : Owners)
      → ((sk : String) → (after sk ≡ before sk) ⊎ (after sk ≡ none))
      → OwnerStep (delete_request id) before after

-- A stack is created under an id.
abbrev pub IsNamed : Request → Type 0
IsNamed (call (create_call st)) = st.stack_id ≢ ""
IsNamed _ = Unit

module _ {W : Type 0} (r : DynamoRepository W) where
  unfoldable pub after_request : Request → W → W
  unfolding after_call
  after_request (call c) w = after_call r c w
  after_request (delete_request id) w = (delete r id w).1

module _ {W : Type 0} (t : DynamoTable W) where
  abbrev pub owners : W → Owners
  owners w sk = owner (t.rows w "PORTS" sk)

-- A deletion leaves each row of a port as it is, or removes it.
deletes-frame :
    {W : Type 0} (r : DynamoRepository W) (t : DynamoTable W) (ps : List PortMapping) (rows : Rows)
    (sk : String)
    → (owner (
          write_all
            (map (transact_row t) (map (λ p. delete_write (port_delete r p)) ps))
            rows
            "PORTS"
            sk)
        ≡ owner (rows "PORTS" sk))
      ⊎ (owner (
            write_all
              (map (transact_row t) (map (λ p. delete_write (port_delete r p)) ps))
              rows
              "PORTS"
              sk)
          ≡ none)
unfolding write_all write_row find owner
deletes-frame r t [] rows sk = inl refl
deletes-frame r t (p ∷ ps) rows sk =
    let further = deletes-frame r t ps (write_row (delete_row t (port_delete r p)) rows) sk in
    elim (Bool-cases (port_sk p.node_port == sk)) [
      | inl same ↦ inr (elim further [ inl e ↦ e ∙ rw same refl | inr e ↦ e ])
      | inr other ↦ rw other at further
    ]

-- The deletion of the row of the stack leaves the ports alone.
pub stack_delete-ports :
    {W : Type 0} (r : DynamoRepository W) (t : DynamoTable W) (st : Stack) (rows : Rows)
    (sk : String)
    → write_row (delete_row t (stack_delete r st)) rows "PORTS" sk ≡ rows "PORTS" sk
unfolding write_row find
stack_delete-ports r t st rows sk =
    let other : (stack_meta_pk st.stack_id == "PORTS") ≡ false =
      ground (arith, eq_iff (stack_meta_pk st.stack_id) "PORTS", stack_pk_lem st.stack_id) in
    rw other refl

pub deletes_tables :
    {W : Type 0} (r : DynamoRepository W) (ps : List PortMapping)
    → All (λ i. table_of i ≡ r.table) (map (λ p. delete_write (port_delete r p)) ps)
deletes_tables r [] = tt
deletes_tables r (p ∷ ps) = (refl, deletes_tables r ps)

module _ {W : Type 0} (r : DynamoRepository W) (t : DynamoTable W) (laws : ClientLaws r t)
    (meaning : ExpressionLaws t) where
  -- The step of a Create whose transaction is made.
  made-OwnerStep :
      (st : Stack) (now : String) (w w1 after : W)
      → st.stack_id ≢ ""
      → SameRows (t.rows w) (t.rows w1)
      → ((sk s : String) → owners t w sk ≡ some s → owners t after sk ≡ some s)
      → Admits (t.rows w1) (map (transact_row t) (create_items r now st))
      → SameRows
          (write_all (map (transact_row t) (create_items r now st)) (t.rows w1))
          (t.rows after)
      → OwnerStep (call (create_call st)) (owners t w) (owners t after)
  unfolding create_items write_all
  made-OwnerStep st now w w1 after named clock kept admitted made =
      let (unowned, owned) = port_rows r t meaning now st named (t.rows w1) admitted in
      let present =
        All-map
          (λ p h. rw (port_row r t meaning now st named (t.rows w1) (port_sk p.node_port)) h.0)
          st.ports
          (claims-admitted r t meaning st.stack_id now named st.ports (t.rows w1) admitted.1) in
      let put_rows = write_row (put_row t (stack_put r st)) (t.rows w1) in
      claim st (owners t w) (owners t after)
        (All-map (λ p h. sym (ap owner (clock "PORTS" (port_sk p.node_port))) ∙ h) st.ports unowned)
        (All-map (λ p h. ap owner (made "PORTS" (port_sk p.node_port)) ∙ h) st.ports owned)
        (λ sk. elim (claims-frame r t meaning st.stack_id now named st.ports put_rows sk present) [
          | inl same ↦ inl (
              ap owner (made "PORTS" sk)
              ∙ same
              ∙ ap owner (port_row r t meaning now st named (t.rows w1) sk)
              ∙ ap owner (clock "PORTS" sk))
          | inr became ↦ elim (Option-cases (owners t w sk)) [
            | inl unowned ↦ inr (unowned, ap owner (made "PORTS" sk) ∙ became)
            | inr (s, e) ↦ inl (kept sk s e ∙ sym e)
          ]
        ])

  create-OwnerStep :
      (st : Stack) (w : W)
      → st.stack_id ≢ ""
      → OwnerStep (call (create_call st)) (owners t w) (owners t (create r st w).1)
  unfolding create create_items write_all after_call
  create-OwnerStep st w named = elim (Bool-cases (no_ports r st.ports)) [
    | inl e ↦ rw e (idle _ _ _ (λ sk. ap owner (laws.clock w "PORTS" sk)))
    | inr e ↦
        let w1 = (r.now w).1 in
        let now = r.times.format (r.now w).0 in
        let commits = laws.transact (create_items r now st) w1 (items_tables r now st) in
        rw e (elim commits.made_or_not [
          | inl same ↦
              idle _ _ _ (λ sk. ap owner (same "PORTS" sk) ∙ ap owner (laws.clock w "PORTS" sk))
          | inr (admitted, made) ↦
              made-OwnerStep st now w w1 _ named (laws.clock w)
                (λ sk s owned.
                  rw (after_call, create, e) at
                    (after_call-IsOwned r t laws meaning sk s (create_call st) w owned))
                admitted made
        ])
  ]

  -- Delete after its Get has answered: the transaction, where there is a stack.
  found-OwnerStep :
      (id : String) (before : Owners) (found : Option Stack) (w : W)
      → ((sk : String) → owners t w sk ≡ before sk)
      → OwnerStep (delete_request id) before (owners t (delete_found r found w).1)
  unfolding delete_items write_all write_row find
  found-OwnerStep id before none w kept = idle _ _ _ kept
  found-OwnerStep id before (some st) w kept =
      let commits = laws.transact (delete_items r st) w (refl, deletes_tables r st.ports) in
      elim commits.made_or_not [
        | inl same ↦ idle _ _ _ (λ sk. ap owner (same "PORTS" sk) ∙ kept sk)
        | inr (admitted, made) ↦ free id _ _ (λ sk.
            let rows = write_row (delete_row t (stack_delete r st)) (t.rows w) in
            elim (deletes-frame r t st.ports rows sk) [
              | inl same ↦ inl (
                  ap owner (made "PORTS" sk)
                  ∙ same
                  ∙ ap owner (stack_delete-ports r t st (t.rows w) sk)
                  ∙ kept sk)
              | inr gone ↦ inr (ap owner (made "PORTS" sk) ∙ gone)
            ])
      ]

  delete-OwnerStep :
      (id : String) (w : W)
      → OwnerStep (delete_request id) (owners t w) (owners t (delete r id w).1)
  unfolding delete
  delete-OwnerStep id w =
      let kept : (sk : String) → owners t (get r id w).1 sk ≡ owners t w sk =
        λ sk. (get-Keeps r t laws meaning sk _ id).after w refl in
      elim (Outcome-cases (get r id w)) [
        | inl (found, w1, e) ↦
            rw e (found-OwnerStep id (owners t w) found w1 (λ sk. rw e at (kept sk)))
        | inr (x, w1, e) ↦ rw e (idle _ _ _ (λ sk. rw e at (kept sk)))
      ]

-- Every request to the repository in DynamoDB, whether it succeeds, fails or loses its answer, takes a
-- step of the abstract table of port owners: Create, of a stack with an id, changes nothing or gives
-- it all its ports, which belonged to no stack, and no other port another owner; Delete leaves each port
-- its owner or frees it; the other calls leave all owners as they are.
pub after_request-OwnerStep :
    {W : Type 0} (r : DynamoRepository W) (t : DynamoTable W)
    → ClientLaws r t
    → ExpressionLaws t
    → (request : Request) (w : W) → IsNamed request
    → OwnerStep request (owners t w) (owners t (after_request r request w))
unfolding after_request after_call
after_request-OwnerStep r t laws meaning (delete_request id) w named =
    delete-OwnerStep r t laws meaning id w
after_request-OwnerStep r t laws meaning (call c) w named = elim (Call-cases c) [
  | inl (st, e) ↦ rw e (create-OwnerStep r t laws meaning st w (rw e at named))
  | inr quiet ↦ idle _ _ _ (λ sk. quiet-IsOwned r t laws meaning sk (owners t w sk) c quiet w refl)
]
