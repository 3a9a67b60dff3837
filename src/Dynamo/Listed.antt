-- ===== src/Dynamo/Listed.antt =====
-- What ListAll and UsedNodePortCount of internal/stack/dynamodb.go return, however many pages a query
-- has.
use container_provisioner_k.Base.{
  ℕ, zero, suc, ◌+◌, ◌≤◌, true, false, List, [], ◌∷◌, ◌++◌, ◌≡◌, refl, sym, ap, ◌∙◌, ◌⊎◌, inl, inr,
  arith,
}
use mathlib.Core.List.{append-nil, Perm}
use container_provisioner_k.Errors.{Error, Result, ok, err}
use container_provisioner_k.Op.{Op, lift, Result-cases, ◌>>=◌}
use container_provisioner_k.Models.{Stack}
use container_provisioner_k.Repository.{sort_by_creation}
use container_provisioner_k.Repository.Listing.{
  IsSorted, sort_by_creation-IsSorted, sort_by_creation-perm,
}
use container_provisioner_k.Dynamo.{DynamoRepository}
use container_provisioner_k.Dynamo.Client.{QueryInput, QueryOutput}
use container_provisioner_k.Dynamo.Codec.{stack_from_item}
use container_provisioner_k.Dynamo.Items.{Item, no_entry, is_empty, TimeLibrary}
use container_provisioner_k.Dynamo.Pages.{
  with_item, read_page, collect, more_stacks, list_all, more_count, count_pages,
  used_node_port_count, all_query, port_query,
}

module _ {W : Type 0} (r : DynamoRepository W) (input : Item → QueryInput) where
  -- The pages of a query from a start key on: `Pages n key w pages w'` reads `n` pages, the last of
  -- which names no further key.
  pub data Pages : ℕ → Item → W → List QueryOutput → W → Type 0 where
    last_page :
        (key : Item) (w w' : W) (page : QueryOutput)
        → r.client.query (input key) w ≡ (ok page, w')
        → is_empty page.last_evaluated_key ≡ true
        → Pages 1 key w (page ∷ []) w'
    next_page :
        (n : ℕ) (key : Item) (w w' w'' : W) (page : QueryOutput) (pages : List QueryOutput)
        → r.client.query (input key) w ≡ (ok page, w')
        → is_empty page.last_evaluated_key ≡ false
        → Pages n page.last_evaluated_key w' pages w''
        → Pages (suc n) key w (page ∷ pages) w''

abbrev pub items_of : List QueryOutput → List Item
items_of [] = []
items_of (page ∷ pages) = page.items ++ items_of pages

abbrev pub count_of : List QueryOutput → ℕ
count_of [] = 0
count_of (page ∷ pages) = page.count + count_of pages

abbrev joined : Result (List Stack) → Result (List Stack) → Result (List Stack)
joined (err e) b = err e
joined (ok out) (err e) = err e
joined (ok out) (ok rest) = ok (out ++ rest)

with_item-joined :
    (st : Result Stack) (a b : Result (List Stack))
    → with_item st (joined a b) ≡ joined (with_item st a) b
with_item-joined (err x) a b = refl
with_item-joined (ok st) (err e) b = refl
with_item-joined (ok st) (ok sts) (err e) = refl
with_item-joined (ok st) (ok sts) (ok rest) = refl

nil-joined : (b : Result (List Stack)) → b ≡ joined (ok []) b
nil-joined (ok sts) = refl
nil-joined (err e) = refl

read_page-append :
    (lib : TimeLibrary) (items more : List Item)
    → read_page lib (items ++ more) ≡ joined (read_page lib items) (read_page lib more)
unfolding read_page
read_page-append lib [] more = nil-joined (read_page lib more)
read_page-append lib (item ∷ items) more =
    ap (with_item (stack_from_item lib item)) (read_page-append lib items more)
    ∙ with_item-joined (stack_from_item lib item) (read_page lib items) (read_page lib more)

count-Pages :
    {W : Type 0} (r : DynamoRepository W) (n : ℕ) (key : Item) (w w' : W) (pages : List QueryOutput)
    → Pages r (port_query r) n key w pages w'
    → (left total : ℕ) → n ≤ left
    → count_pages r left total key w ≡ (ok (total + count_of pages), w')
unfolding count_pages more_count
count-Pages r _ _ _ _ _ (last_page key w w' page e ended) zero total h = absurd (omega arith)
count-Pages r _ _ _ _ _ (last_page key w w' page e ended) (suc left) total h =
    let same : total + page.count ≡ total + (page.count + 0) = omega arith in
    rw (e, ended) (λ i. (ok (same i), w'))
count-Pages r _ _ _ _ _ (next_page n key w w1 w' page rest e more further) zero total h =
    absurd (omega arith)
count-Pages r _ _ _ _ _ (next_page n key w w1 w' page rest e more further) (suc left) total h =
    let again =
      count-Pages r n page.last_evaluated_key w1 w' rest further left (total + page.count)
        (omega arith) in
    let same : total + page.count + count_of rest ≡ total + (page.count + count_of rest) =
      omega arith in
    rw (e, more, again) (λ i. (ok (same i), w'))

joined-nil : (a : Result (List Stack)) → a ≡ joined a (ok [])
joined-nil (ok sts) = ap ok (sym (append-nil sts))
joined-nil (err e) = refl

-- What the last page, and a page before it, add to the stacks.
last-stacks :
    {W : Type 0} (r : DynamoRepository W) (more : Op W (List Stack)) (key : Item)
    (a : Result (List Stack)) (w : W)
    → is_empty key ≡ true
    → ((lift a >>= λ out. more_stacks r more key out) w).0 ≡ a
unfolding more_stacks
last-stacks r more key (ok out) w ended = rw ended refl
last-stacks r more key (err e) w ended = refl

next-stacks :
    {W : Type 0} (r : DynamoRepository W) (more : Op W (List Stack)) (key : Item)
    (a : Result (List Stack)) (w : W)
    → is_empty key ≡ false
    → ((lift a >>= λ out. more_stacks r more key out) w).0 ≡ joined a (more w).0
unfolding more_stacks
next-stacks r more key (err e) w further = refl
next-stacks r more key (ok out) w further = elim (Result-cases (more w).0) [
  | inl (rest, e) ↦ rw (further, e) refl
  | inr (x, e) ↦ rw (further, e) refl
]

collect-Pages :
    {W : Type 0} (r : DynamoRepository W) (n : ℕ) (key : Item) (w w' : W) (pages : List QueryOutput)
    → Pages r (all_query r) n key w pages w'
    → (left : ℕ) → n ≤ left
    → (collect r left key w).0 ≡ read_page r.times (items_of pages)
unfolding collect
collect-Pages r _ _ _ _ _ (last_page key w w' page e ended) zero h = absurd (omega arith)
collect-Pages r _ _ _ _ _ (last_page key w w' page e ended) (suc left) h = rw e (
    last-stacks r (collect r left page.last_evaluated_key) page.last_evaluated_key
      (read_page r.times page.items) w' ended
    ∙ joined-nil (read_page r.times page.items)
    ∙ sym (read_page-append r.times page.items []))
collect-Pages r _ _ _ _ _ (next_page n key w w1 w' page rest e more further) zero h =
    absurd (omega arith)
collect-Pages r _ _ _ _ _ (next_page n key w w1 w' page rest e more further) (suc left) h =
    let again = collect-Pages r n page.last_evaluated_key w1 w' rest further left (omega arith) in
    rw e (
      next-stacks r (collect r left page.last_evaluated_key) page.last_evaluated_key
        (read_page r.times page.items) w1 more
      ∙ ap (joined (read_page r.times page.items)) again
      ∙ sym (read_page-append r.times page.items (items_of rest)))

-- The stacks `out` in order of creation, or the error.
abbrev Listing : Result (List Stack) → Result (List Stack) → Type 0
Listing (ok out) answer = (ss : List Stack) × (answer ≡ ok ss) × IsSorted ss × Perm ss out
Listing (err e) answer = answer ≡ err e

sorted-Listing :
    {W : Type 0} (o : Result (List Stack) × W)
    → Listing o.0 (((λ w. o) >>= λ out. lift (ok (sort_by_creation out))) o.1).0
sorted-Listing (ok out, w) =
    (sort_by_creation out, refl, sort_by_creation-IsSorted out, sort_by_creation-perm out)
sorted-Listing (err e, w) = refl

list_all-Listing :
    {W : Type 0} (r : DynamoRepository W) (n : ℕ) (w w' : W) (pages : List QueryOutput)
    → Pages r (all_query r) n no_entry w pages w'
    → n ≤ r.rounds
    → Listing (read_page r.times (items_of pages)) (list_all r w).0
unfolding list_all
list_all-Listing r n w w' pages read enough =
    rw (sym (collect-Pages r n no_entry w w' pages read r.rounds enough))
      (sorted-Listing (collect r r.rounds no_entry w))

-- The stacks that the items are, in their order.
abbrev pub Decoded : TimeLibrary → List Item → List Stack → Type 0
Decoded lib [] [] = Unit
Decoded lib [] (st ∷ sts) = ⊥
Decoded lib (item ∷ items) [] = ⊥
Decoded lib (item ∷ items) (st ∷ sts) = (stack_from_item lib item ≡ ok st) × Decoded lib items sts

-- All items are stacks, and the result is these; or the first item that is none has the error.
abbrev Outcome : TimeLibrary → List Item → (List Stack → Type 0) → (Error → Type 0) → Type 0
Outcome lib items Found Failed =
    ((sts : List Stack) × Decoded lib items sts × Found sts)
    ⊎ ((first : List Item) × (item : Item) × (rest : List Item) × (sts : List Stack) × (e : Error)
        × (items ≡ first ++ (item ∷ rest))
        × Decoded lib first sts
        × (stack_from_item lib item ≡ err e)
        × Failed e)

-- The answer is the stacks of all items in order of creation, or the error of the first item that is no
-- stack.
abbrev pub ListsItems : TimeLibrary → List Item → Result (List Stack) → Type 0
ListsItems lib items answer =
    Outcome lib items (λ sts. (ss : List Stack) × (answer ≡ ok ss) × IsSorted ss × Perm ss sts)
      (λ e. answer ≡ err e)

read_page-Outcome :
    (lib : TimeLibrary) (items : List Item)
    → Outcome lib items (λ sts. read_page lib items ≡ ok sts) (λ e. read_page lib items ≡ err e)
unfolding read_page
read_page-Outcome lib [] = inl ([], tt, refl)
read_page-Outcome lib (item ∷ items) = elim (Result-cases (stack_from_item lib item)) [
  | inr (x, e) ↦ inr ([], item, items, [], x, refl, tt, e, rw e refl)
  | inl (st, e) ↦ elim (read_page-Outcome lib items) [
    | inl (sts, decoded, read) ↦ inl (st ∷ sts, (e, decoded), rw (e, read) refl)
    | inr (first, bad, rest, sts, x, same, decoded, failed, read) ↦ inr (
      item ∷ first,
      bad,
      rest,
      st ∷ sts,
      x,
      ap (λ is. item ∷ is) same,
      (e, decoded),
      failed,
      rw (e, read) refl,
    )
  ]
]

Listing-ListsItems :
    (lib : TimeLibrary) (items : List Item) (answer : Result (List Stack))
    → Listing (read_page lib items) answer
    → ListsItems lib items answer
Listing-ListsItems lib items answer h = elim (read_page-Outcome lib items) [
  | inl (sts, decoded, read) ↦ inl (sts, decoded, rw read at h)
  | inr (first, bad, rest, sts, x, same, decoded, failed, read) ↦
      inr (first, bad, rest, sts, x, same, decoded, failed, rw read at h)
]

-- ListAll reads all the pages of the index, `rounds` being enough for them. If all their items are
-- stacks it returns these stacks, each as often as it occurs, in order of creation; otherwise it returns
-- the error of the first item that is no stack.
pub list_all-ListsItems :
    {W : Type 0} (r : DynamoRepository W) (n : ℕ) (w w' : W) (pages : List QueryOutput)
    → Pages r (all_query r) n no_entry w pages w'
    → n ≤ r.rounds
    → ListsItems r.times (items_of pages) (list_all r w).0
list_all-ListsItems r n w w' pages read enough =
    Listing-ListsItems r.times (items_of pages) (list_all r w).0
      (list_all-Listing r n w w' pages read enough)

-- UsedNodePortCount returns the sum of the counts of all the pages, `rounds` being enough for them.
pub used_node_port_count-sum :
    {W : Type 0} (r : DynamoRepository W) (n : ℕ) (w w' : W) (pages : List QueryOutput)
    → Pages r (port_query r) n no_entry w pages w'
    → n ≤ r.rounds
    → used_node_port_count r w ≡ (ok (count_of pages), w')
unfolding used_node_port_count
used_node_port_count-sum r n w w' pages read enough =
    let same : 0 + count_of pages ≡ count_of pages = omega arith in
    count-Pages r n no_entry w w' pages read r.rounds 0 enough ∙ (λ i. (ok (same i), w'))
