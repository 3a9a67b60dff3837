-- ===== src/Grpc/Ids.antt =====
-- The ids of a CreateBatchDeleteJob request, as internal/grpcserver/server.go cleans them.
use container_provisioner_k.Base.{
  String, true, false, ◌||◌, List, [], ◌∷◌, ◌++◌, map, ◌≡◌, refl, arith, ◌==◌, string_eq, inl, inr,
  Bool-cases,
}
use container_provisioner_k.Base.Text.{trim_space}
use container_provisioner_k.Validator.{has_key}
use container_provisioner_k.Grpc.{Reply, reply, refused, invalid_argument}
use container_provisioner_k.Grpc.Server.{clean_ids}

abbrev pub Distinct : List String → Type 0
Distinct [] = Unit
Distinct (x ∷ xs) = (has_key x xs ≡ false) × Distinct xs

-- The outcome of cleaning `ids`: kept are the trimmed ids, none of them empty, each once; or else
-- the request is refused and one of the ids is blank.
abbrev pub AreCleaned : List String → Reply (List String) → Type 0
AreCleaned ids (reply clean) =
    Distinct clean
    × ((x : String) → has_key x clean ≡ has_key x (map trim_space ids))
    × (has_key "" (map trim_space ids) ≡ false)
AreCleaned ids (refused e) = (e.code ≡ invalid_argument) × (has_key "" (map trim_space ids) ≡ true)

has_key-append :
    (x y : String) (xs : List String) → has_key x (xs ++ y ∷ []) ≡ (has_key x xs || (y == x))
unfolding has_key
has_key-append x y [] = ground arith
has_key-append x y (z ∷ zs) = ground (arith, has_key-append x y zs)

append-Distinct :
    (y : String) (xs : List String) → Distinct xs → has_key y xs ≡ false → Distinct (xs ++ y ∷ [])
unfolding has_key
append-Distinct y [] d n = (refl, tt)
append-Distinct y (x ∷ xs) (n', d) n = (
  ground (arith, has_key-append x y xs, string_eq.beq_iff x y, string_eq.beq_iff y x),
  append-Distinct y xs d (ground arith),
)

-- What remains to be cleaned, with what is already kept.
abbrev Remaining : List String → List String → Reply (List String) → Type 0
Remaining kept ids (reply clean) =
    Distinct clean
    × ((x : String) → has_key x clean ≡ (has_key x kept || has_key x (map trim_space ids)))
    × (has_key "" (map trim_space ids) ≡ false)
Remaining kept ids (refused e) =
    (e.code ≡ invalid_argument) × (has_key "" (map trim_space ids) ≡ true)

kept-Remaining :
    (id : String) (ids kept kept' : List String) (r : Reply (List String))
    → (trim_space id == "") ≡ false
    → ((x : String)
        → (has_key x kept' || has_key x (map trim_space ids))
          ≡ (has_key x kept || has_key x (map trim_space (id ∷ ids))))
    → Remaining kept' ids r
    → Remaining kept (id ∷ ids) r
unfolding has_key
kept-Remaining id ids kept kept' (reply clean) b same (d, h, n) =
    (d, λ x. ground (arith, h x, same x), ground arith)
kept-Remaining id ids kept kept' (refused e) b same (c, h) = (c, ground arith)

clean_ids-Remaining :
    (seen kept ids : List String)
    → ((x : String) → has_key x seen ≡ has_key x kept)
    → Distinct kept
    → Remaining kept ids (clean_ids seen kept ids)
unfolding clean_ids has_key
clean_ids-Remaining seen kept [] same d = (d, λ x. ground arith, refl)
clean_ids-Remaining seen kept (id ∷ ids) same d = elim (Bool-cases (trim_space id == "")) [
  | inl b ↦ rw (b, Remaining) (refl, ground arith)
  | inr b ↦ elim (Bool-cases (has_key (trim_space id) seen)) [
    | inl k ↦
        rw (b, k, Remaining)
          (kept-Remaining id ids kept kept (clean_ids seen kept ids) b
            (λ x. ground (arith, same x, same (trim_space id), string_eq.beq_iff (trim_space id) x))
            (clean_ids-Remaining seen kept ids same d))
    | inr k ↦
        rw (b, k, Remaining)
          (kept-Remaining id ids kept (kept ++ trim_space id ∷ []) _ b
            (λ x. ground (arith, has_key-append x (trim_space id) kept))
            (clean_ids-Remaining (trim_space id ∷ seen) (kept ++ trim_space id ∷ []) ids
              (λ x. ground (arith, same x, has_key-append x (trim_space id) kept))
              (append-Distinct (trim_space id) kept d (ground (arith, same (trim_space id))))))
  ]
]

Remaining-AreCleaned :
    (ids : List String) (r : Reply (List String)) → Remaining [] ids r → AreCleaned ids r
unfolding has_key
Remaining-AreCleaned ids (reply clean) h = h
Remaining-AreCleaned ids (refused e) h = h

-- A batch request is cleaned to its trimmed ids, each once and in no case empty, and refused as an
-- invalid argument exactly when one of its ids is blank.
pub clean_ids-AreCleaned : (ids : List String) → AreCleaned ids (clean_ids [] [] ids)
clean_ids-AreCleaned ids =
    Remaining-AreCleaned ids (clean_ids [] [] ids) (clean_ids-Remaining [] [] ids (λ x. refl) tt)
