-- ===== src/Base/Dict.antt =====
-- Go's maps as association lists. A write replaces the entry in place or appends it; the order of
-- the entries stands for one of the orders in which Go may range over the map.
use container_provisioner_k.Base.{
  ◌≡◌, refl, true, Option, none, some, List, [], ◌∷◌, arith, Eq, ◌==◌, if◌then◌else◌,
}

abbrev pub Dict {ℓ κ} : Type ℓ → Type κ → Type (ℓ ⊔ κ)
Dict K V = List (K × V)

module _ {ℓ κ} {K : Type ℓ} ⦃e : Eq K⦄ {V : Type κ} where
  unfoldable pub lookup : K → Dict K V → Option V
  lookup k [] = none
  lookup k ((i, value) ∷ entries) =
      let further = lookup k entries in if i == k then some value else further

  unfoldable pub insert : K → V → Dict K V → Dict K V
  insert k v [] = (k, v) ∷ []
  insert k v ((i, old) ∷ rest) =
      let entries = insert k v rest in if i == k then (k, v) ∷ rest else (i, old) ∷ entries

  unfoldable pub erase : K → Dict K V → Dict K V
  erase k [] = []
  erase k ((j, v) ∷ m) = let rest = erase k m in if j == k then rest else (j, v) ∷ rest

  pub lookup-insert :
      (written asked : K) (value : V) (m : Dict K V)
      → lookup asked (insert written value m)
        ≡ (if written == asked then some value else lookup asked m)
  unfolding lookup insert
  lookup-insert written asked value [] = refl
  lookup-insert written asked value ((i, old) ∷ rest) = ground (
    arith,
    e.beq_iff written asked,
    e.beq_iff i written,
    e.beq_iff i asked,
    lookup-insert written asked value rest,
  )

  pub lookup-erase :
      (k j : K) (m : Dict K V) → lookup j (erase k m) ≡ (if k == j then none else lookup j m)
  unfolding lookup erase
  lookup-erase k j [] = ground arith
  lookup-erase k j ((i, w) ∷ m) =
      ground (arith, e.beq_iff k j, e.beq_iff i k, e.beq_iff i j, lookup-erase k j m)

pub beq_refl {ℓ} : {K : Type ℓ} ⦃e : Eq K⦄ (k : K) → (k == k) ≡ true
beq_refl ⦃e⦄ k = (e.beq_iff k k).1 refl
