-- ===== src/OcpVersion/Names.antt =====
-- The names derived from a version: different versions get different paths, and, where no version
-- holds an underscore, different index names.
use Prim.Native.Char.{Char}
use text.Mathlib.TextEquality.{codes_equal}
use text.Mathlib.TextLemmas.{append_cancel_left, cons-eq-cons}
use mathlib.Core.Path.{ap₂}
use osls_operator.Base.{
  String, ◌<>◌, ◌≡◌, refl, sym, ◌∙◌, true, false, arith, inl, inr, Bool-cases, if◌then◌else◌,
}
use osls_operator.Base.Text.{char_eq, replace_all}
use osls_operator.OcpVersion.{
  ocp_vector_db_path, ocp_index_prefix, get_ocp_index_name, get_ocp_vector_db_path,
}

-- No character of the text is the given one.
abbrev pub Lacks : Char → String → Type 0
Lacks c (String.[]) = Unit
Lacks c (String.◌∷◌ d s) = (char_eq d c ≡ false) × Lacks c s

-- Two versions that have the same path of their vector database are the same version.
pub get_ocp_vector_db_path-injective :
    (v w : String) → get_ocp_vector_db_path v ≡ get_ocp_vector_db_path w → v ≡ w
unfolding get_ocp_vector_db_path
get_ocp_vector_db_path-injective v w h =
    append_cancel_left "_" v w (append_cancel_left ocp_vector_db_path ("_" <> v) ("_" <> w) h)

replace_all-Lacks : (s : String) → Lacks "." (replace_all "." "_" s)
unfolding replace_all
replace_all-Lacks (String.[]) = tt
replace_all-Lacks (String.◌∷◌ c s) = elim (Bool-cases (char_eq c ".")) [
  | inl dot ↦ rw dot (refl, replace_all-Lacks s)
  | inr other ↦ rw other (other, replace_all-Lacks s)
]

pub char_eq-eq : (c d : Char) → char_eq c d ≡ true → c ≡ d
char_eq-eq c d h = codes_equal c d (ground arith)

char_eq_of_eq : (c : Char) → c ≡ "_" → char_eq c "_" ≡ true
char_eq_of_eq c h = rw h refl

swap_dot : Char → Char
swap_dot c = if char_eq c "." then "_" else c

swap_dot-injective :
    (c d : Char) → char_eq c "_" ≡ false → char_eq d "_" ≡ false → swap_dot c ≡ swap_dot d → c ≡ d
unfolding swap_dot
swap_dot-injective c d hc hd h = elim (Bool-cases (char_eq c ".")) [
  | inl p ↦ elim (Bool-cases (char_eq d ".")) [
    | inl q ↦ char_eq-eq c "." p ∙ sym (char_eq-eq d "." q)
    | inr q ↦ cc (char_eq_of_eq d (sym (h_left p q)))
  ]
  | inr p ↦ elim (Bool-cases (char_eq d ".")) [
    | inl q ↦ cc (char_eq_of_eq c (h_right p q))
    | inr q ↦ h_none p q
  ]
]
  where
    h_left : char_eq c "." ≡ true → char_eq d "." ≡ false → "_" ≡ d
    h_left p q = rw (p, q) at h

    h_right : char_eq c "." ≡ false → char_eq d "." ≡ true → c ≡ "_"
    h_right p q = rw (p, q) at h

    h_none : char_eq c "." ≡ false → char_eq d "." ≡ false → c ≡ d
    h_none p q = rw (p, q) at h

replace_all-injective :
    (s t : String)
    → Lacks "_" s
    → Lacks "_" t
    → replace_all "." "_" s ≡ replace_all "." "_" t
    → s ≡ t
unfolding replace_all swap_dot
replace_all-injective (String.[]) (String.[]) ls lt h = refl
replace_all-injective (String.[]) (String.◌∷◌ d t) ls lt h = cc
replace_all-injective (String.◌∷◌ c s) (String.[]) ls lt h = cc
replace_all-injective (String.◌∷◌ c s) (String.◌∷◌ d t) ls lt h =
    let p = cons-eq-cons.0 h in
    ap₂ String.◌∷◌ (swap_dot-injective c d ls.0 lt.0 p.0) (replace_all-injective s t ls.1 lt.1 p.1)

-- Two versions without an underscore that have the same index name are the same version.
pub get_ocp_index_name-injective :
    (v w : String) → Lacks "_" v → Lacks "_" w → get_ocp_index_name v ≡ get_ocp_index_name w → v ≡ w
unfolding get_ocp_index_name
get_ocp_index_name-injective v w lv lw h =
    replace_all-injective v w lv lw
      (append_cancel_left "-" _ _ (append_cancel_left ocp_index_prefix _ _ h))
