-- ===== src/Dynamo/Table.antt =====
-- What the code of internal/stack/dynamodb.go relies on of DynamoDB: a table of rows, conditional
-- writes and transactions of them, and the meaning of the expressions that the code sends.
use container_provisioner_k.Base.{
  ℕ, String, Bool, true, ◌&&◌, Option, none, some, List, [], ◌∷◌, map, All, if◌then◌else◌, ◌==◌,
  string_eq, ◌≡◌, ◌≢◌, ◌⊎◌,
}
use container_provisioner_k.Errors.{Result, ok}
use container_provisioner_k.Dynamo.{DynamoRepository}
use container_provisioner_k.Dynamo.Items.{Attr, member_s, Item, no_entry, find}
use container_provisioner_k.Dynamo.Client.{
  GetItemInput, PutItemInput, DeleteItemInput, UpdateItemInput, QueryInput, TransactWriteItem,
  put_write, update_write, delete_write,
}

-- A row of the table, by its pk and sk.
abbrev pub Row : Type 0
Row = Option Item

abbrev pub Rows : Type 0
Rows = String → String → Row

-- The rows in a world, and how DynamoDB evaluates a condition and an update with the attribute
-- values that go with them.
pub record DynamoTable (W : Type 0) : Type 0 where
  pub rows : W → Rows
  pub holds : String → Item → Row → Bool
  pub updated : String → Item → Row → Row

abbrev pub text_of : Option Attr → String
text_of (some (member_s value)) = value
text_of _ = ""

abbrev pub pk_of : Item → String
pk_of item = text_of (find "pk" item)

abbrev pub sk_of : Item → String
sk_of item = text_of (find "sk" item)

-- The stack that a row of a node port belongs to.
abbrev owner_of : String → Option String
owner_of value = if value == "" then none else some value

unfoldable pub owner : Row → Option String
unfolding find
owner none = none
owner (some item) = owner_of (text_of (find "stack_id" item))

pub record RowWrite : Type 0 where
  pub pk : String
  pub sk : String
  pub guard : Row → Bool
  pub effect : Row → Row

unfoldable pub write_row : RowWrite → Rows → Rows
write_row wr rows pk sk = if wr.pk == pk && wr.sk == sk then wr.effect (rows pk sk) else rows pk sk

unfoldable pub write_all : List RowWrite → Rows → Rows
unfolding write_row
write_all [] rows = rows
write_all (wr ∷ rest) rows = write_all rest (write_row wr rows)

-- No condition of the writes fails in the rows before them.
abbrev pub Admits : Rows → List RowWrite → Type 0
Admits rows = All (λ wr. wr.guard (rows wr.pk wr.sk) ≡ true)

abbrev pub SameRows : Rows → Rows → Type 0
SameRows before after = (pk sk : String) → after pk sk ≡ before pk sk

-- All writes are made, or none; a call that succeeds makes them. A call that fails may have made
-- them, when the answer is lost.
pub record Commits (writes : List RowWrite) (before after : Rows) (outcome : Result (Unit {0}))
    : Type 0 where
  pub made_or_not :
      SameRows before after ⊎ (Admits before writes × SameRows (write_all writes before) after)
  pub made : outcome ≡ ok tt → Admits before writes × SameRows (write_all writes before) after

module _ {W : Type 0} (t : DynamoTable W) where
  abbrev pub put_row : PutItemInput → RowWrite
  put_row i = record {
    pk = pk_of i.item;
    sk = sk_of i.item;
    guard = t.holds i.condition no_entry;
    effect = λ row. some i.item;
  }

  abbrev pub update_row : UpdateItemInput → RowWrite
  update_row i = record {
    pk = pk_of i.key;
    sk = sk_of i.key;
    guard = t.holds i.condition i.attribute_values;
    effect = t.updated i.update i.attribute_values;
  }

  abbrev pub delete_row : DeleteItemInput → RowWrite
  delete_row i = record {
    pk = pk_of i.key;
    sk = sk_of i.key;
    guard = t.holds i.condition i.attribute_values;
    effect = λ row. none;
  }

  abbrev pub transact_row : TransactWriteItem → RowWrite
  transact_row (put_write i) = put_row i
  transact_row (update_write i) = update_row i
  transact_row (delete_write i) = delete_row i

abbrev pub table_of : TransactWriteItem → String
table_of (put_write i) = i.table_name
table_of (update_write i) = i.table_name
table_of (delete_write i) = i.table_name

-- What a read of a row returns: an item without attributes where there is no row.
abbrev pub item_of : Row → Item
item_of none = no_entry
item_of (some item) = item

-- The behaviour of the calls on the table of the repository.
pub record ClientLaws {W : Type 0} (r : DynamoRepository W) (t : DynamoTable W) : Type 0 where
  pub put :
      (i : PutItemInput) (w : W)
      → i.table_name ≡ r.table
      → Commits
          (put_row t i ∷ [])
          (t.rows w)
          (t.rows (r.client.put_item i w).1)
          (r.client.put_item i w).0
  pub update :
      (i : UpdateItemInput) (w : W)
      → i.table_name ≡ r.table
      → Commits
          (update_row t i ∷ [])
          (t.rows w)
          (t.rows (r.client.update_item i w).1)
          (r.client.update_item i w).0
  pub delete :
      (i : DeleteItemInput) (w : W)
      → i.table_name ≡ r.table
      → Commits
          (delete_row t i ∷ [])
          (t.rows w)
          (t.rows (r.client.delete_item i w).1)
          (r.client.delete_item i w).0
  pub transact :
      (items : List TransactWriteItem) (w : W)
      → All (λ i. table_of i ≡ r.table) items
      → Commits
          (map (transact_row t) items)
          (t.rows w)
          (t.rows (r.client.transact_write_items items w).1)
          (r.client.transact_write_items items w).0
  pub get : (i : GetItemInput) (w : W) → SameRows (t.rows w) (t.rows (r.client.get_item i w).1)
  pub get_consistent :
      (i : GetItemInput) (w : W) (item : Item)
      → i.table_name ≡ r.table
      → i.consistent_read ≡ true
      → (r.client.get_item i w).0 ≡ ok item
      → item_of (t.rows w (pk_of i.key) (sk_of i.key)) ≡ item
  pub query : (i : QueryInput) (w : W) → SameRows (t.rows w) (t.rows (r.client.query i w).1)
  pub clock : (w : W) → SameRows (t.rows w) (t.rows (r.now w).1)
  pub random : (n : ℕ) (w : W) → SameRows (t.rows w) (t.rows (r.random_int n w).1)

-- The meaning of the expressions.
pub record ExpressionLaws {W : Type 0} (t : DynamoTable W) : Type 0 where
  pub is_new :
      (values : Item) (row : Row)
      → t.holds "attribute_not_exists(pk) AND attribute_not_exists(sk)" values row ≡ true
      → row ≡ none
  pub exists :
      (values : Item) (row : Row)
      → t.holds "attribute_exists(pk) AND attribute_exists(sk)" values row ≡ true
      → row ≢ none
  pub unowned :
      (values : Item) (row : Row)
      → find ":empty" values ≡ some (member_s "")
      → t.holds "attribute_not_exists(stack_id) OR stack_id = :empty" values row ≡ true
      → owner row ≡ none
  pub claimable :
      (values : Item) (row : Row)
      → find ":empty" values ≡ some (member_s "")
      → t.holds
          "attribute_exists(pk) AND attribute_exists(sk) AND (attribute_not_exists(stack_id) OR stack_id = :empty)"
          values row
        ≡ true
      → (row ≢ none) × (owner row ≡ none)
  pub stale :
      (values : Item) (row : Row)
      → find ":empty" values ≡ some (member_s "")
      → t.holds
          "(attribute_not_exists(stack_id) OR stack_id = :empty) AND (attribute_not_exists(locked_at) OR locked_at < :stale_before)"
          values row
        ≡ true
      → owner row ≡ none
  pub lock :
      (values : Item) (row : Row)
      → owner (t.updated "SET created_at = :now, locked_at = :locked_at" values row) ≡ owner row
  pub claim :
      (values : Item) (row : Row) (id : String)
      → find ":sid" values ≡ some (member_s id)
      → id ≢ ""
      → row ≢ none
      → owner (t.updated "SET stack_id = :sid, updated_at = :now" values row) ≡ some id
