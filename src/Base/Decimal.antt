-- ===== src/Base/Decimal.antt =====
-- `strconv.FormatInt` read back.
use Prim.Native.Nat.{ℕ, zero, suc, ◌+◌, ◌-◌, ◌*◌, ◌/◌, ◌%◌, ◌<◌}
use Prim.Native.Char.{code}
use Prim.Native.String.{String, [], ◌∷◌, ◌++◌, slice}
use Prim.Native.String.append
use mathlib.Core.Path.{◌≡◌, refl, ap, ◌∙◌}
use mathlib.Core.Logic.{inl, inr}
use native.Mathlib.Omega.{arith}
use osls_operator.Base.Tests.{leb, Bool-cases}
use osls_operator.Base.Text.{format_from, format_int}

-- The number that decimal digits stand for, after a number in front of them.
abbrev pub decimal_from : ℕ → String → ℕ
decimal_from n [] = n
decimal_from n (c ∷ s) = decimal_from (n * 10 + (code c - 48)) s

abbrev pub decimal : String → ℕ
decimal s = decimal_from 0 s

abbrev pow10 : ℕ → ℕ
pow10 zero = 1
pow10 (suc f) = 10 * pow10 f

decimal_from-append :
    (c : Prim.Native.Char.Char) (n : ℕ) (s : String)
    → decimal_from n ((c ∷ []) ++ s) ≡ decimal_from (n * 10 + (code c - 48)) s
decimal_from-append c n s =
    ap (decimal_from n) ((λ i. append.cons c [] s i) ∙ ap (λ t. c ∷ t) (λ i. append.nil s i))

decimal_from-digit :
    (d n : ℕ) (s : String)
    → d < 10
    → decimal_from n (slice "0123456789" d (d + 1) ++ s) ≡ decimal_from (n * 10 + d) s
decimal_from-digit zero n s h = decimal_from-append "0" n s
decimal_from-digit (suc zero) n s h = decimal_from-append "1" n s
decimal_from-digit (suc (suc zero)) n s h = decimal_from-append "2" n s
decimal_from-digit (suc (suc (suc zero))) n s h = decimal_from-append "3" n s
decimal_from-digit (suc (suc (suc (suc zero)))) n s h = decimal_from-append "4" n s
decimal_from-digit (suc (suc (suc (suc (suc zero))))) n s h = decimal_from-append "5" n s
decimal_from-digit (suc (suc (suc (suc (suc (suc zero)))))) n s h = decimal_from-append "6" n s
decimal_from-digit (suc (suc (suc (suc (suc (suc (suc zero))))))) n s h =
    decimal_from-append "7" n s
decimal_from-digit (suc (suc (suc (suc (suc (suc (suc (suc zero)))))))) n s h =
    decimal_from-append "8" n s
decimal_from-digit (suc (suc (suc (suc (suc (suc (suc (suc (suc zero))))))))) n s h =
    decimal_from-append "9" n s
decimal_from-digit (suc (suc (suc (suc (suc (suc (suc (suc (suc (suc d)))))))))) n s h =
    absurd (omega arith)

-- The last digit of a number, after the number without it.
last_digit :
    (m n : ℕ) (s : String)
    → m ≡ n / 10
    → decimal_from m (slice "0123456789" (n % 10) (n % 10 + 1) ++ s) ≡ decimal_from n s
last_digit m n s h =
    decimal_from-digit (n % 10) m s (omega arith) ∙ ap (λ k. decimal_from k s) (omega arith)

decimal-format_from :
    (fuel n : ℕ) (s : String) → n < pow10 fuel → decimal (format_from fuel n s) ≡ decimal_from n s
unfolding format_from
decimal-format_from zero n s h = ap (λ m. decimal_from m s) (omega arith)
decimal-format_from (suc f) n s h = elim (Bool-cases (leb (n / 10) 0)) [
  | inl e ↦ rw e (last_digit 0 n s (ground arith))
  | inr e ↦ rw e (decimal-format_from f (n / 10) _ (omega arith) ∙ last_digit (n / 10) n s refl)
]

-- The text of a number below 2^63 is read back as the number: the fuel is enough.
decimal-format_int : (n : ℕ) → n < 9223372036854775808 → decimal (format_int n) ≡ n
unfolding format_int
decimal-format_int n h = decimal-format_from 20 n "" (omega arith)
