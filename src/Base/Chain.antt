-- ===== src/Base/Chain.antt =====
-- Chains of functions that return Go's `(value, error)` and write nothing.
use mathlib.Core.Path.{◌≡◌, refl}
use uncut_core.Base.Results.{Result, ok, err}

module _ {E A B : Type 0} where
  infixl 5 ◌>>=◌
  abbrev pub ◌>>=◌ : Result E A → (A → Result E B) → Result E B
  ok a >>= f = f a
  err e >>= f = err e

  -- A chain succeeds if both of its parts do.
  pub >>=-eq-ok :
      (first : Result E A) (next : A → Result E B) {b : B}
      → (first >>= next) ≡ ok b
      → (a : A) × (first ≡ ok a) × (next a ≡ ok b)
  >>=-eq-ok (ok a) next done = (a, refl, done)
  >>=-eq-ok (err e) next done = cc

module _ {E B : Type 0} where
  infixl 5 ◌>>◌
  abbrev pub ◌>>◌ : Result E (Unit {0}) → Result E B → Result E B
  m >> n = m >>= λ _. n
