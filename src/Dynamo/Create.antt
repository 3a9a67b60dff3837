-- ===== src/Dynamo/Create.antt =====
-- What Create of internal/stack/dynamodb.go leaves in the table, and what Get then reads.
use container_provisioner_k.Base.{
  String, true, false, Option, none, some, map, All, All-map, ◌==◌, string_eq, ◌≡◌, ◌≢◌, refl, sym,
  ◌∙◌, inl, inr, Bool-cases, arith, eq_iff,
}
use container_provisioner_k.Base.Dict.{beq_refl}
use container_provisioner_k.Dynamo.Failures.{map_error, map_dynamo_tx_error}
use container_provisioner_k.Errors.{Error, Result, ok, err}
use container_provisioner_k.Op.{Result-cases, result-distinct}
use container_provisioner_k.Models.{Stack}
use container_provisioner_k.Dynamo.{
  DynamoRepository, create, create_items, get, stack_put, no_ports, stack_read, decoded,
}
use container_provisioner_k.Dynamo.Items.{
  find, TimeLaws, attr_string, attr_string_optional, attr_int64, attr_time,
}
use container_provisioner_k.Dynamo.Keys.{port_sk, stack_meta_pk}
use container_provisioner_k.Dynamo.Owned.{stack_pk_lem, claims_tables}
use container_provisioner_k.Dynamo.RoundTrip.{IsStorable, stack_from_item-stack_to_item}
use container_provisioner_k.Dynamo.Codec.{stack_from_item, attr_port_specs, attr_port_mappings}
use container_provisioner_k.Dynamo.Table.{
  Rows, DynamoTable, owner, write_row, write_all, Admits, ClientLaws, ExpressionLaws, put_row,
  transact_row, table_of,
}
use container_provisioner_k.Dynamo.Claims.{claims-owned, claims-stack, claims-admitted}

map_error-ok : (f : Error → Error) (o : Result (Unit {0})) → map_error f o ≡ ok tt → o ≡ ok tt
map_error-ok f (ok a) h = refl
map_error-ok f (err e) h = absurd (cc)

pub items_tables :
    {W : Type 0} (r : DynamoRepository W) (now : String) (st : Stack)
    → All (λ i. table_of i ≡ r.table) (create_items r now st)
unfolding create_items
items_tables r now st = (refl, claims_tables r st.stack_id now st.ports)

-- The rows that the writes of Create leave.
module _ {W : Type 0} (r : DynamoRepository W) (t : DynamoTable W) (meaning : ExpressionLaws t)
    (now : String) (st : Stack) (named : st.stack_id ≢ "") (rows : Rows) where
  abbrev rows_made : Rows
  rows_made = write_all (map (transact_row t) (create_items r now st)) rows

  abbrev rows_put : Rows
  rows_put = write_row (put_row t (stack_put r st)) rows

  stack_row : rows_made (stack_meta_pk st.stack_id) "META" ≡ some (stack_put r st).item
  unfolding create_items write_all write_row find
  stack_row =
      claims-stack r t meaning st.stack_id now named st.ports rows_put (stack_meta_pk st.stack_id)
        "META" (stack_pk_lem st.stack_id)
      ∙ rw (beq_refl (stack_meta_pk st.stack_id)) refl

  pub port_row : (sk : String) → rows_put "PORTS" sk ≡ rows "PORTS" sk
  unfolding write_row find
  port_row sk =
      let other : (stack_meta_pk st.stack_id == "PORTS") ≡ false =
        ground (arith, eq_iff (stack_meta_pk st.stack_id) "PORTS", stack_pk_lem st.stack_id) in
      rw other refl

  pub port_rows :
      Admits rows (map (transact_row t) (create_items r now st))
      → All (λ p. owner (rows "PORTS" (port_sk p.node_port)) ≡ none) st.ports
        × All (λ p. owner (rows_made "PORTS" (port_sk p.node_port)) ≡ some st.stack_id) st.ports
  unfolding create_items write_all
  port_rows admitted =
      let claimed = claims-admitted r t meaning st.stack_id now named st.ports rows admitted.1 in
      (
        All-map (λ p h. h.1) st.ports claimed,
        claims-owned r t meaning st.stack_id now named st.ports rows_put
            (All-map (λ p h. rw (port_row (port_sk p.node_port)) h.0) st.ports claimed),
      )

-- What a successful Create has done.
record IsCreated {W : Type 0} (r : DynamoRepository W) (t : DynamoTable W) (st : Stack)
    (before after : W) : Type 0 where
  -- Before the call the ports belong to no stack, after it to this one.
  free : All (λ p. owner (t.rows before "PORTS" (port_sk p.node_port)) ≡ none) st.ports
  owned : All (λ p. owner (t.rows after "PORTS" (port_sk p.node_port)) ≡ some st.stack_id) st.ports
  stored : t.rows after (stack_meta_pk st.stack_id) "META" ≡ some (stack_put r st).item

create-IsCreated :
    {W : Type 0} (r : DynamoRepository W) (t : DynamoTable W)
    → ClientLaws r t
    → ExpressionLaws t
    → (st : Stack) (w : W) → st.stack_id ≢ ""
    → (create r st w).0 ≡ ok tt
    → IsCreated r t st w (create r st w).1
unfolding create
create-IsCreated r t laws meaning st w named h = elim (Bool-cases (no_ports r st.ports)) [
  | inl e ↦ absurd (result-distinct (rw e at h))
  | inr e ↦
      let w1 = (r.now w).1 in
      let now = r.times.format (r.now w).0 in
      let o = r.client.transact_write_items (create_items r now st) w1 in
      let committed =
        (laws.transact (create_items r now st) w1 (items_tables r now st)).made
          (map_error-ok map_dynamo_tx_error o.0 (rw e at h)) in
      let (free, owned) = port_rows r t meaning now st named (t.rows w1) committed.0 in
      rw e (record {
        free =
            All-map (λ p free_p. rw (laws.clock w "PORTS" (port_sk p.node_port)) at free_p) st.ports
              free;
        owned =
            All-map (λ p owned_p. rw (committed.1 "PORTS" (port_sk p.node_port)) owned_p) st.ports
              owned;
        stored =
            committed.1 (stack_meta_pk st.stack_id) "META"
            ∙ stack_row r t meaning now st named (t.rows w1);
      })
]

-- The attributes that Create adds to the item of a stack are not read back.
stack_from_item-stack_put :
    {W : Type 0} (r : DynamoRepository W)
    → TimeLaws r.times
    → (st : Stack) → IsStorable st
    → stack_from_item r.times (stack_put r st).item ≡ ok st
unfolding stack_from_item attr_string attr_string_optional attr_int64 attr_time attr_port_specs
    attr_port_mappings find
stack_from_item-stack_put r times st v = stack_from_item-stack_to_item r.times times st v

decoded_put :
    {W : Type 0} (r : DynamoRepository W)
    → TimeLaws r.times
    → (st : Stack) → IsStorable st
    → decoded r (stack_from_item r.times) (stack_put r st).item ≡ ok (some st)
decoded_put r times st v = rw (stack_from_item-stack_put r times st v) refl

pub ok_inj {ℓ} : {A : Type ℓ} {a b : A} → ok a ≡ ok b → a ≡ b
ok_inj h = cc

get-item :
    {W : Type 0} (r : DynamoRepository W) (t : DynamoTable W)
    → ClientLaws r t
    → TimeLaws r.times
    → r.consistent_read ≡ true
    → (st : Stack) (w : W) (found : Option Stack) → IsStorable st
    → t.rows w (stack_meta_pk st.stack_id) "META" ≡ some (stack_put r st).item
    → (get r st.stack_id w).0 ≡ ok found
    → found ≡ some st
unfolding get find
get-item r t laws times consistent st w found v stored h =
    elim (Result-cases (r.client.get_item (stack_read r st.stack_id) w).0) [
      | inl (item, e) ↦
          let same = laws.get_consistent (stack_read r st.stack_id) w item refl consistent e in
          let is_item : item ≡ (stack_put r st).item = sym (rw stored at same) in
          let read : decoded r (stack_from_item r.times) (stack_put r st).item ≡ ok found =
            rw is_item at (rw e at h) in
          ok_inj (sym read ∙ decoded_put r times st v)
      | inr (x, e) ↦ absurd (result-distinct (rw e at h))
    ]

-- When Create succeeds, the stack's ports belonged to no stack before and belong to this one after,
-- and a consistent Get that answers without an error returns the stack as it was given. The stack
-- has an id and can be stored (IsStorable).
pub get-create :
    {W : Type 0} (r : DynamoRepository W) (t : DynamoTable W)
    → ClientLaws r t
    → ExpressionLaws t
    → TimeLaws r.times
    → r.consistent_read ≡ true
    → (st : Stack) (w : W) (found : Option Stack) → IsStorable st
    → st.stack_id ≢ ""
    → (create r st w).0 ≡ ok tt
    → (get r st.stack_id (create r st w).1).0 ≡ ok found
    → (found ≡ some st)
      × All (λ p. owner (t.rows w "PORTS" (port_sk p.node_port)) ≡ none) st.ports
      × All
          (λ p. owner (t.rows (create r st w).1 "PORTS" (port_sk p.node_port)) ≡ some st.stack_id)
          st.ports
get-create r t laws meaning times consistent st w found v named made read =
    let c = create-IsCreated r t laws meaning st w named made in
    (get-item r t laws times consistent st (create r st w).1 found v c.stored read, c.free, c.owned)
