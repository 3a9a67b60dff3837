-- ===== src/Repository/Listing.antt =====
-- ListAll: every stored stack once, oldest first.
use mathlib.Core.List.{Perm}
use mathlib.Core.List.Perm
use container_provisioner_k.Base.{
  ◌≤◌, List, [], ◌∷◌, ◌≡◌, map, refl, arith, ltb, Bool-cases, inl, inr,
}
use container_provisioner_k.Errors.{ok}
use container_provisioner_k.Models.{Stack}
use container_provisioner_k.Repository
use container_provisioner_k.Repository.{
  InMemoryRepository, insert_by_creation, sort_by_creation, stored,
}

-- Each stack was created no later than the next.
abbrev pub IsSorted : List Stack → Type 0
IsSorted [] = Unit
IsSorted (s ∷ []) = Unit
IsSorted (s ∷ t ∷ ss) = (s.created_at ≤ t.created_at) × IsSorted (t ∷ ss)

insert_by_creation-IsSorted :
    (st : Stack) (ss : List Stack) → IsSorted ss → IsSorted (insert_by_creation st ss)
unfolding insert_by_creation
insert_by_creation-IsSorted st [] h = tt
insert_by_creation-IsSorted st (s ∷ []) h = ground arith
insert_by_creation-IsSorted st (s ∷ t ∷ ss) h =
    ground (arith, insert_by_creation-IsSorted st (t ∷ ss) h.1)

insert_by_creation-perm : (st : Stack) (ss : List Stack) → Perm (insert_by_creation st ss) (st ∷ ss)
unfolding insert_by_creation
insert_by_creation-perm st [] = Perm.refl (st ∷ [])
insert_by_creation-perm st (s ∷ ss) = elim (Bool-cases (ltb s.created_at st.created_at)) [
  | inl later ↦
      rw later (Perm.trans (Perm.cons s (insert_by_creation-perm st ss)) (Perm.swap st s ss))
  | inr first ↦ rw first (Perm.refl (st ∷ s ∷ ss))
]

pub sort_by_creation-IsSorted : (ss : List Stack) → IsSorted (sort_by_creation ss)
unfolding sort_by_creation
sort_by_creation-IsSorted [] = tt
sort_by_creation-IsSorted (s ∷ ss) =
    unfold sort_by_creation in
    insert_by_creation-IsSorted s (sort_by_creation ss) (sort_by_creation-IsSorted ss)

pub sort_by_creation-perm : (ss : List Stack) → Perm (sort_by_creation ss) ss
unfolding sort_by_creation
sort_by_creation-perm [] = Perm.nil
sort_by_creation-perm (s ∷ ss) =
    Perm.trans (insert_by_creation-perm s (sort_by_creation ss))
      (Perm.cons s (sort_by_creation-perm ss))

-- ListAll succeeds, changes nothing, and returns the stacks of all entries of the map, each once for
-- its entry and no other, in order of creation.
pub list_all-IsSorted :
    (r : InMemoryRepository)
    → (ss : List Stack) × (Repository.list_all r ≡ (ok ss, r))
      × IsSorted ss
      × Perm ss (map (λ (id, st). st) r.stacks)
unfolding Repository.list_all
list_all-IsSorted r = (
  sort_by_creation (stored r.stacks),
  refl,
  sort_by_creation-IsSorted (stored r.stacks),
  sort_by_creation-perm (stored r.stacks),
)
