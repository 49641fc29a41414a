-- ===== src/Base/Text.antt =====
-- The functions of Go's `strings` package that the operator uses, on texts taken by characters.
use Prim.Native.Nat.{ℕ, zero, suc, ◌+◌, ◌/◌, ◌%◌, compare as compare_ℕ}
use Prim.Native.Char.{Char, code}
use Prim.Native.String.{String, [], ◌∷◌, ◌++◌, slice}
use mathlib.Core.Bool.{Bool, false, ◌||◌}
use text.Mathlib.Text.{◌==◌, is_eq}
use mathlib.Core.Path.{◌≡◌}
use mathlib.Core.Logic.{◌≢◌}
use text.Mathlib.TextEquality.{eq_iff}
use osls_operator.Base.Tests.{leb, if◌then◌else◌, not_both}

-- the comparison of two runes
abbrev pub char_eq : Char → Char → Bool
char_eq c d = is_eq (compare_ℕ (code c) (code d))

-- `strings.HasSuffix`: some end of the text, taken from a character on, is the suffix
unfoldable pub has_suffix : String → String → Bool
has_suffix [] t = [] == t
has_suffix (c ∷ s) t = (c ∷ s) == t || has_suffix s t

-- `strings.ReplaceAll` of one character by one character
unfoldable pub replace_all : Char → Char → String → String
replace_all from to [] = []
replace_all from to (c ∷ s) = (if char_eq c from then to else c) ∷ replace_all from to s

-- The digits of a number in front of a text, the last digit first; the fuel bounds their count.
unfoldable pub format_from : ℕ → ℕ → String → String
format_from zero n digits = digits
format_from (suc fuel) n digits =
    let digit = slice "0123456789" (n % 10) (n % 10 + 1) in
    let rest = format_from fuel (n / 10) (digit ++ digits) in
    if leb (n / 10) 0 then digit ++ digits else rest

-- `strconv.FormatInt(n, 10)` of a number that is not negative: an `int64` has 19 digits at most
unfoldable pub format_int : ℕ → String
unfolding format_from
format_int n = format_from 20 n ""

-- The test tells the texts apart.
pub differs : (s t : String) → (s == t) ≡ false → s ≢ t
differs s t e q = absurd (not_both e ((eq_iff s t).1 q))
