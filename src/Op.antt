-- ===== src/Op.antt =====
-- Operations on a shared world that may fail. What was written before an error stays written, so
-- the world comes back beside the error too. The interleaving with other goroutines is not part of
-- an operation: each call of an interface is one atomic step.
use container_provisioner_k.Base.{◌≡◌, ◌≢◌, ◌⊎◌, inl, inr, refl}
use container_provisioner_k.Errors.{Error, Result, ok, err}

abbrev pub Op : Type 0 → Type 0 → Type 0
Op W A = W → Result A × W

module _ {W A : Type 0} where
  abbrev pub pure : A → Op W A
  pure a w = (ok a, w)

  abbrev pub raise : Error → Op W A
  raise e w = (err e, w)

  abbrev pub lift : Result A → Op W A
  lift r w = (r, w)

  -- The caller inspects or logs the error and goes on.
  abbrev pub attempt : Op W A → Op W (Result A)
  attempt m w = let (r, w') = m w in (ok r, w')

module _ {W A B : Type 0} where
  abbrev pub continue : Result A → (A → Op W B) → Op W B
  continue (ok a) f w = f a w
  continue (err e) f w = (err e, w)

  infixl 5 ◌>>=◌ ◌>>◌
  abbrev pub ◌>>=◌ : Op W A → (A → Op W B) → Op W B
  ◌>>=◌ m f w = let (r, w') = m w in continue r f w'

  abbrev pub ◌>>◌ : Op W A → Op W B → Op W B
  m >> k = m >>= λ _. k

pub Result-cases {ℓ} :
    {A : Type ℓ} (r : Result A) → ((a : A) × (r ≡ ok a)) ⊎ ((e : Error) × (r ≡ err e))
Result-cases (ok a) = inl (a, refl)
Result-cases (err e) = inr (e, refl)

-- To split on the outcome of a call and keep the equation.
pub Outcome-cases :
    {W A : Type 0} (o : Result A × W)
    → ((a : A) × (w : W) × (o ≡ (ok a, w))) ⊎ ((e : Error) × (w : W) × (o ≡ (err e, w)))
Outcome-cases (ok a, w) = inl (a, w, refl)
Outcome-cases (err e, w) = inr (e, w, refl)

pub result-distinct {ℓ} : {A : Type ℓ} {e : Error} {a : A} → err e ≢ ok a
result-distinct h = cc
