-- ===== src/OcpVersion/Scan.antt =====
-- The scanner that stands for the regular expression `^(\d+\.\d+)`: what `\d+` takes.
use Prim.Native.Char.{Char, code}
use Prim.Native.String.{[], ◌∷◌}
use osls_operator.Base.{String, Bool, ◌&&◌, leb, if◌then◌else◌}

-- `\d` of the regular expression: an ASCII digit
unfoldable pub is_digit : Char → Bool
is_digit c = leb b'0' (code c) && leb (code c) b'9'

-- What a greedy `\d+` takes from the front of a text, and the rest.
unfoldable pub span_digits : String → String × String
unfolding is_digit
span_digits [] = ([], [])
span_digits (c ∷ s) =
    let (digits, rest) = span_digits s in if is_digit c then (c ∷ digits, rest) else ([], c ∷ s)
