-- ===== src/Base/Fallible.antt =====
-- A chain of calls of functions of type `(A, error)`, with the error returned as it is.
use mathlib.Core.Path.{◌≡◌, refl}
use osls_operator.Base.Errors.{Result, ok, err}

module _ {A B : Type 0} where
  infixl 5 ◌>>=◌
  abbrev pub ◌>>=◌ : Result A → (A → Result B) → Result B
  ok a >>= f = f a
  err e >>= f = err e

module _ {A B : Type 0} where
  -- A chain that succeeds has gone through its first call, and then is the rest.
  pub >>=-ok :
      (m : Result A) (f : A → Result B) (b : B)
      → (m >>= f) ≡ ok b
      → (a : A) × (m ≡ ok a) × (f a ≡ ok b)
  >>=-ok (ok a) f b h = (a, refl, h)
  >>=-ok (err e) f b h = cc

module _ {A : Type 0} where
  pub >>=-ok_right : (m : Result A) → (m >>= ok) ≡ m
  >>=-ok_right (ok a) = refl
  >>=-ok_right (err e) = refl
