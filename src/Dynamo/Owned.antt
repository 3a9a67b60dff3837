-- ===== src/Dynamo/Owned.antt =====
-- A call of DynamoDB that makes only careful writes leaves the row of an owned node port alone
-- (internal/stack/dynamodb.go).
use text.Mathlib.TextLemmas.{cons-append, head-eq_of_cons-eq}
use Prim.Native.Char.{Char, code}
use Prim.Native.String.{◌++◌}
use container_provisioner_k.Base.{
  String, true, ◌&&◌, none, some, Option, List, [], ◌∷◌, map, All, ◌==◌, string_eq, nat_eq, ◌≡◌,
  ◌≢◌, refl, sym, ap, ◌∙◌, inl, inr, Bool-cases, arith, eq_iff,
}
use container_provisioner_k.Errors.{Result}
use container_provisioner_k.Op.{Op}
use container_provisioner_k.Models.{PortMapping}
use container_provisioner_k.Service.Upholds.{Keeps}
use container_provisioner_k.Dynamo
use container_provisioner_k.Dynamo.Client
use container_provisioner_k.Dynamo.{DynamoRepository}
use container_provisioner_k.Dynamo.Table.{
  Row, Rows, DynamoTable, owner, RowWrite, write_row, write_all, Admits, SameRows, Commits,
  ClientLaws, table_of,
}

-- A write that only passes its condition on a port that belongs to no stack.
abbrev pub IsCareful : RowWrite → Type 0
IsCareful wr = wr.pk ≡ "PORTS" → (row : Row) → wr.guard row ≡ true → owner row ≡ none

write_row-owned :
    (wr : RowWrite) (rows before : Rows) (sk s : String)
    → IsCareful wr
    → wr.guard (before wr.pk wr.sk) ≡ true
    → owner (before "PORTS" sk) ≡ some s
    → write_row wr rows "PORTS" sk ≡ rows "PORTS" sk
unfolding write_row
write_row-owned wr rows before sk s careful guard owned =
    elim (Bool-cases (wr.pk == "PORTS" && wr.sk == sk)) [
      | inl same ↦
          let pk : wr.pk ≡ "PORTS" = ground (arith, eq_iff wr.pk "PORTS") in
          let sk' : wr.sk ≡ sk = ground (arith, eq_iff wr.sk sk) in
          let free = careful pk (before "PORTS" sk) (rw (pk, sk') at guard) in absurd (cc)
      | inr other ↦ rw other refl
    ]

write_all-owned :
    (writes : List RowWrite) (rows before : Rows) (sk s : String)
    → All IsCareful writes
    → Admits before writes
    → owner (before "PORTS" sk) ≡ some s
    → write_all writes rows "PORTS" sk ≡ rows "PORTS" sk
unfolding write_all
write_all-owned [] rows before sk s careful admitted owned = refl
write_all-owned (wr ∷ rest) rows before sk s careful admitted owned =
    write_all-owned rest (write_row wr rows) before sk s careful.1 admitted.1 owned
    ∙ write_row-owned wr rows before sk s careful.0 admitted.0 owned

Commits-owned :
    (writes : List RowWrite) (before after : Rows) (outcome : Result (Unit {0})) (sk s : String)
    → All IsCareful writes
    → Commits writes before after outcome
    → owner (before "PORTS" sk) ≡ some s
    → after "PORTS" sk ≡ before "PORTS" sk
Commits-owned writes before after outcome sk s careful commits owned = elim commits.made_or_not [
  | inl same ↦ same "PORTS" sk
  | inr (admitted, made) ↦
      made "PORTS" sk ∙ write_all-owned writes before before sk s careful admitted owned
]

-- Texts that begin with different characters.
initial_differs :
    (c d : Char) (s t rest : String) → code c ≢ code d → (String.◌∷◌ c s ++ rest) ≢ String.◌∷◌ d t
initial_differs c d s t rest ne h =
    ne (ap code (head-eq_of_cons-eq (sym (cons-append c s rest) ∙ h)))

pub stack_pk_lem : (id : String) → ("STACK#" ++ id) ≢ "PORTS"
stack_pk_lem id = initial_differs "S" "P" "TACK#" "ORTS" id (λ h. absurd (omega arith))

pub job_pk_lem : (id : String) → ("JOB#" ++ id) ≢ "PORTS"
job_pk_lem id = initial_differs "J" "P" "OB#" "ORTS" id (λ h. absurd (omega arith))

-- The updates that claim the ports name the table of the repository.
pub claims_tables :
    {W : Type 0} (r : DynamoRepository W) (id now : String) (ps : List PortMapping)
    → All
        (λ i. table_of i ≡ r.table)
        (map (λ p. Client.update_write (Dynamo.port_claim r id now p)) ps)
claims_tables r id now [] = tt
claims_tables r id now (p ∷ ps) = (refl, claims_tables r id now ps)

-- A write that leaves the owner of each row of a port as it is, where it passes its condition.
abbrev pub IsTame : RowWrite → Type 0
IsTame wr = wr.pk ≡ "PORTS" → (row : Row) → wr.guard row ≡ true → owner (wr.effect row) ≡ owner row

write_row-owner :
    (wr : RowWrite) (rows : Rows) (sk : String)
    → IsTame wr
    → wr.guard (rows wr.pk wr.sk) ≡ true
    → owner (write_row wr rows "PORTS" sk) ≡ owner (rows "PORTS" sk)
unfolding write_row
write_row-owner wr rows sk tame guard = elim (Bool-cases (wr.pk == "PORTS" && wr.sk == sk)) [
  | inl same ↦
      let pk : wr.pk ≡ "PORTS" = ground (arith, eq_iff wr.pk "PORTS") in
      let sk' : wr.sk ≡ sk = ground (arith, eq_iff wr.sk sk) in
      rw same (tame pk (rows "PORTS" sk) (rw (pk, sk') at guard))
  | inr other ↦ rw other refl
]

Commits-owner :
    (wr : RowWrite) (before after : Rows) (outcome : Result (Unit {0})) (sk : String)
    → IsTame wr
    → Commits (wr ∷ []) before after outcome
    → owner (after "PORTS" sk) ≡ owner (before "PORTS" sk)
unfolding write_all
Commits-owner wr before after outcome sk tame commits = elim commits.made_or_not [
  | inl same ↦ ap owner (same "PORTS" sk)
  | inr (admitted, made) ↦ ap owner (made "PORTS" sk) ∙ write_row-owner wr before sk tame admitted.0
]

module _ {W : Type 0} (t : DynamoTable W) (sk : String) (o : Option String) where
  -- The owner of the port is `o`, none where the port belongs to no stack.
  abbrev pub IsOwned : W → Type 0
  IsOwned w = owner (t.rows w "PORTS" sk) ≡ o

  -- A call that makes one tame write or none.
  pub commit-Keeps :
      (m : Op W (Unit {0})) (wr : RowWrite)
      → IsTame wr
      → ((w : W) → Commits (wr ∷ []) (t.rows w) (t.rows (m w).1) (m w).0)
      → Keeps IsOwned m
  commit-Keeps m wr tame commits = record {
    after =
        λ w owned. Commits-owner wr (t.rows w) (t.rows (m w).1) (m w).0 sk tame (commits w) ∙ owned;
  }

  pub same-Keeps :
      {A : Type 0} (m : Op W A) → ((w : W) → SameRows (t.rows w) (t.rows (m w).1)) → Keeps IsOwned m
  same-Keeps m same = record { after = λ w owned. rw (same w "PORTS" sk) owned }

-- A call that makes careful writes or none.
pub commits-Keeps :
    {W : Type 0} (t : DynamoTable W) (sk s : String) (m : Op W (Unit {0})) (writes : List RowWrite)
    → All IsCareful writes
    → ((w : W) → Commits writes (t.rows w) (t.rows (m w).1) (m w).0)
    → Keeps (IsOwned t sk (some s)) m
commits-Keeps t sk s m writes careful commits = record {
  after = λ w owned.
      rw (Commits-owned writes (t.rows w) (t.rows (m w).1) (m w).0 sk s careful (commits w) owned)
        owned;
}

module _ {W : Type 0} (r : DynamoRepository W) (t : DynamoTable W) (laws : ClientLaws r t)
    (sk : String) (s : Option String) where
  pub now_rfc3339-Keeps : Keeps (IsOwned t sk s) (Dynamo.now_rfc3339 r)
  now_rfc3339-Keeps = record { after = (same-Keeps t sk s (Dynamo.clock r) laws.clock).after }
