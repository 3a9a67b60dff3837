-- ===== src/Tests/Table.antt =====
-- A table in memory that behaves as the repository of internal/stack/dynamodb.go expects of DynamoDB.
use container_provisioner_k.Base.{
  String, Bool, true, false, ◌&&◌, not, Option, none, some, List, [], ◌∷◌, map, if◌then◌else◌, ◌==◌,
  string_eq, ◌≡◌, ◌≢◌, refl, sym, inl, inr, Bool-cases, none-some, arith, eq_iff, ◌*◌, ◌^◌,
}
use container_provisioner_k.Base.Int.{ℤ, pos, ltb_ℤ}
use container_provisioner_k.Base.Text.{itoa}
use container_provisioner_k.Base.Text.Numbers.{parse_digits, parse_digits-itoa, parse_int64}
use container_provisioner_k.Errors.{Result, ok, err, plain, condition_failed, transaction_canceled}
use container_provisioner_k.Op.{result-distinct}
use container_provisioner_k.Dynamo.{DynamoRepository}
use container_provisioner_k.Dynamo.Client.{DynamoClient, QueryInput, QueryOutput}
use container_provisioner_k.Dynamo.Items.{
  Attr, member_s, member_n, Item, no_entry, entry, find, is_empty, TimeLibrary, TimeLaws,
}
use container_provisioner_k.Dynamo.Keys.{
  row_is_new, row_exists, is_unowned, is_claimable, is_stale, set_owner, set_lock,
}
use container_provisioner_k.Dynamo.Table.{
  Row, Rows, DynamoTable, owner, RowWrite, write_row, write_all, Admits, Commits, ClientLaws,
  ExpressionLaws, put_row, update_row, delete_row, transact_row, item_of, pk_of, sk_of,
}

-- Times are printed in decimal.
abbrev pub times : TimeLibrary
times = record {
  format = itoa;
  parse = λ s. elim (parse_digits 0 s) [ none ↦ err (plain "no number") | some t ↦ ok t ];
}

pub times-TimeLaws : TimeLaws times
times-TimeLaws = record { parse-format = λ t h. rw (parse_digits-itoa t, times) refl }

abbrev is_here : Row → Bool
is_here none = false
is_here (some item) = true

abbrev is_none : Option String → Bool
is_none none = true
is_none (some s) = false

abbrev number : Option Attr → ℤ
number (some (member_n value)) = elim (parse_int64 value) [ none ↦ pos 0 | some z ↦ z ]
number _ = pos 0

-- locked_at < :stale_before, or there is no lock time
unfoldable lock_expired : Item → Item → Bool
unfolding find
lock_expired values item = elim (find "locked_at" item) [
  | none ↦ true
  | some attr ↦ ltb_ℤ (number (some attr)) (number (find ":stale_before" values))
]

unfoldable pub holds : String → Item → Row → Bool
unfolding lock_expired owner
holds condition values row =
    if condition == row_is_new
    then not (is_here row)
    else if condition == row_exists
    then is_here row
    else if condition == is_unowned
    then is_none (owner row)
    else if condition == is_claimable
    then is_here row && is_none (owner row)
    else if condition == is_stale
    then is_none (owner row) && lock_expired values (item_of row)
    else true

abbrev value_of : Option Attr → Attr
value_of none = member_s ""
value_of (some attr) = attr

unfoldable pub updated : String → Item → Row → Row
unfolding find
updated update values row =
    if update == set_owner
    then some (
        entry "stack_id" (value_of (find ":sid" values))
          (entry "updated_at" (value_of (find ":now" values)) (item_of row)))
    else if update == set_lock
    then some (
        entry "created_at" (value_of (find ":now" values))
          (entry "locked_at" (value_of (find ":locked_at" values)) (item_of row)))
    else some (
        entry "status" (value_of (find ":status" values)) (
          entry "node_id" (value_of (find ":node" values))
            (entry "updated_at" (value_of (find ":now" values)) (item_of row))))

abbrev pub table : DynamoTable Rows
table = record { rows = λ rows. rows; holds = holds; updated = updated }

new_lem : (row : Row) → not (is_here row) ≡ true → row ≡ none
new_lem none h = refl
new_lem (some item) h = absurd (ground arith)

here_lem : (row : Row) → is_here row ≡ true → row ≢ none
here_lem none h e = absurd (ground arith)
here_lem (some item) h e = none-some (sym e)

none_lem : (o : Option String) → is_none o ≡ true → o ≡ none
none_lem none h = refl
none_lem (some s) h = absurd (ground arith)

both_lem : (a b : Bool) → (a && b) ≡ true → (a ≡ true) × (b ≡ true)
both_lem true b h = (refl, h)
both_lem false b h = absurd (ground arith)

lock_lem : (values : Item) (row : Row) → owner (updated set_lock values row) ≡ owner row
unfolding updated owner find
lock_lem values none = refl
lock_lem values (some item) = refl

claim_lem :
    (values : Item) (row : Row) (id : String)
    → find ":sid" values ≡ some (member_s id)
    → id ≢ ""
    → owner (updated set_owner values row) ≡ some id
unfolding updated owner find
claim_lem values row id sid named =
    let other : (id == "") ≡ false = ground (arith, eq_iff id "") in rw (sid, other) refl

pub table-ExpressionLaws : ExpressionLaws table
unfolding holds
table-ExpressionLaws = record {
  is_new = λ values row h. new_lem row h;
  exists = λ values row h. here_lem row h;
  unowned = λ values row empty h. none_lem (owner row) h;
  claimable = λ values row empty h.
      let (here, free) = both_lem (is_here row) (is_none (owner row)) h in
      (here_lem row here, none_lem (owner row) free);
  stale = λ values row empty h.
      none_lem (owner row) (both_lem (is_none (owner row)) (lock_expired values (item_of row)) h).0;
  lock = λ values row. lock_lem values row;
  claim = λ values row id sid named here. claim_lem values row id sid named;
}

ok_same {ℓ} : {A : Type ℓ} {a b : A} → ok a ≡ ok b → a ≡ b
ok_same h = cc

-- One conditional write, and a transaction of several.
abbrev run_write : RowWrite → Rows → Result (Unit {0}) × Rows
run_write wr rows =
    if wr.guard (rows wr.pk wr.sk)
    then (ok tt, write_row wr rows)
    else (err (condition_failed "condition failed"), rows)

abbrev admitted : Rows → List RowWrite → Bool
admitted rows [] = true
admitted rows (wr ∷ writes) = wr.guard (rows wr.pk wr.sk) && admitted rows writes

-- The code of each write whose condition fails.
abbrev codes : Rows → List RowWrite → List (Option String)
codes rows [] = []
codes rows (wr ∷ writes) =
    (if wr.guard (rows wr.pk wr.sk) then some "None" else some "ConditionalCheckFailed")
    ∷ codes rows writes

abbrev run_all : List RowWrite → Rows → Result (Unit {0}) × Rows
run_all writes rows =
    if admitted rows writes
    then (ok tt, write_all writes rows)
    else (err (transaction_canceled "canceled" (codes rows writes)), rows)

admitted_lem :
    (rows : Rows) (writes : List RowWrite) → admitted rows writes ≡ true → Admits rows writes
admitted_lem rows [] h = tt
admitted_lem rows (wr ∷ writes) h =
    let (first, rest) = both_lem (wr.guard (rows wr.pk wr.sk)) (admitted rows writes) h in
    (first, admitted_lem rows writes rest)

run_all-Commits :
    (writes : List RowWrite) (rows : Rows)
    → Commits writes rows (run_all writes rows).1 (run_all writes rows).0
run_all-Commits writes rows = elim (Bool-cases (admitted rows writes)) [
  | inl e ↦ rw e (record {
    made_or_not = inr (admitted_lem rows writes e, λ pk sk. refl);
    made = λ h. (admitted_lem rows writes e, λ pk sk. refl);
  })
  | inr e ↦
      rw e (record { made_or_not = inl (λ pk sk. refl); made = λ h. absurd (result-distinct h) })
]

run_write-Commits :
    (wr : RowWrite) (rows : Rows)
    → Commits (wr ∷ []) rows (run_write wr rows).1 (run_write wr rows).0
unfolding write_all
run_write-Commits wr rows = elim (Bool-cases (wr.guard (rows wr.pk wr.sk))) [
  | inl e ↦
      rw e (record {
        made_or_not = inr ((e, tt), λ pk sk. refl);
        made = λ h. ((e, tt), λ pk sk. refl);
      })
  | inr e ↦
      rw e (record { made_or_not = inl (λ pk sk. refl); made = λ h. absurd (result-distinct h) })
]

-- A query has a first page with a further key and a second one without.
abbrev pub two_pages : List Item → List Item → QueryInput → QueryOutput
two_pages first second input =
    if is_empty input.exclusive_start_key
    then record {
      items = first;
      count = 3;
      last_evaluated_key = entry "pk" (member_s "more") no_entry;
    }
    else record { items = second; count = 4; last_evaluated_key = no_entry }

module _ (first second : List Item) where
  abbrev pub client : DynamoClient Rows
  client = record {
    get_item = λ i rows. (ok (item_of (rows (pk_of i.key) (sk_of i.key))), rows);
    put_item = λ i. run_write (put_row table i);
    delete_item = λ i. run_write (delete_row table i);
    update_item = λ i. run_write (update_row table i);
    query = λ i rows. (ok (two_pages first second i), rows);
    transact_write_items = λ items. run_all (map (transact_row table) items);
  }

  abbrev pub repository : DynamoRepository Rows
  repository = record {
    client = client;
    table = "smctf-stacks";
    consistent_read = true;
    port_lock_ttl = pos (30 * 10 ^ 9);
    random_int = λ n rows. (1, rows);
    now = λ rows. (7 * 10 ^ 19, rows);
    times = times;
    rounds = 5;
  }

  pub repository-ClientLaws : ClientLaws repository table
  repository-ClientLaws = record {
    put = λ i rows h. run_write-Commits (put_row table i) rows;
    update = λ i rows h. run_write-Commits (update_row table i) rows;
    delete = λ i rows h. run_write-Commits (delete_row table i) rows;
    transact = λ items rows h. run_all-Commits (map (transact_row table) items) rows;
    get = λ i rows pk sk. refl;
    get_consistent = λ i rows item named consistent h. ok_same h;
    query = λ i rows pk sk. refl;
    clock = λ rows pk sk. refl;
    random = λ n rows pk sk. refl;
  }
