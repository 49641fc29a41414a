-- ===== src/Base/Errors.antt =====
-- Go's `error` values, as far as this code tells them apart: by `IsNotFound` and `IsConflict` of
-- k8s.io/apimachinery/pkg/api/errors, and by their text.
use mathlib.Core.Path.{◌≡◌, refl, ap}
use mathlib.Core.Logic.{◌⊎◌, inl, inr}
use Prim.Native.String.{String, ◌++◌}
use mathlib.Core.Bool.{Bool, true, false}

pub data Reason : Type 0 where
  not_found conflict other : Reason

pub record Error : Type 0 where
  pub reason : Reason
  pub message : String

abbrev pub has_reason_not_found : Reason → Bool
has_reason_not_found not_found = true
has_reason_not_found _ = false

abbrev pub has_reason_conflict : Reason → Bool
has_reason_conflict conflict = true
has_reason_conflict _ = false

-- `k8s_errors.IsNotFound`
abbrev pub is_not_found : Error → Bool
is_not_found e = has_reason_not_found e.reason

-- `k8s_errors.IsConflict`
abbrev pub is_conflict : Error → Bool
is_conflict e = has_reason_conflict e.reason

-- `errors.New`, and `fmt.Errorf` with no `%w`
abbrev pub new_error : String → Error
new_error text = record { reason = other; message = text }

-- `fmt.Errorf("…: %w", err)`: the wrapped error keeps its reason
abbrev pub wrap : String → Error → Error
wrap text e = record { reason = e.reason; message = text ++ (": " ++ e.message) }

-- What a Go function of type `(A, error)` returns.
pub data Result {ℓ} (A : Type ℓ) : Type ℓ where
  ok : A → Result A
  err : Error → Result A

abbrev value_or {ℓ} : {A : Type ℓ} → A → Result A → A
value_or a (ok b) = b
value_or a (err e) = a

pub ok-injective {ℓ} : {A : Type ℓ} {a b : A} → ok a ≡ ok b → a ≡ b
ok-injective {a} p = ap (value_or a) p

pub Result-cases {ℓ} :
    {A : Type ℓ} (r : Result A) → ((a : A) × (r ≡ ok a)) ⊎ ((e : Error) × (r ≡ err e))
Result-cases (ok a) = inl (a, refl)
Result-cases (err e) = inr (e, refl)
