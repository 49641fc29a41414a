-- ===== src/OcpVersion/Parse.antt =====
-- `ParseMajorMinorVersion` against what the regular expression `^(\d+\.\d+)` means.
use Prim.Native.Char.{Char}
use text.Mathlib.TextEquality.{codes_equal}
use text.Mathlib.TextLemmas.{cons-ne-nil, nil-append, cons-append, append_assoc}
use osls_operator.Base.{
  String, ◌<>◌, ◌≡◌, refl, sym, ap, ◌∙◌, true, false, ok, ok-injective, arith, ◌↔◌, inl, inr,
  Bool-cases, eq_iff, ◌==◌,
}
use osls_operator.Base.Text.{char_eq}
use osls_operator.OcpVersion.{
  is_digit, span_digits, match_major, match_digits, match_minor, parse_major_minor_version,
}

abbrev pub AllDigits : String → Type 0
AllDigits (String.[]) = Unit
AllDigits (String.◌∷◌ c s) = (is_digit c ≡ true) × AllDigits s

-- The text does not go on with a digit.
abbrev pub NoDigitNext : String → Type 0
NoDigitNext (String.[]) = Unit
NoDigitNext (String.◌∷◌ c s) = is_digit c ≡ false

-- One digit or more.
abbrev pub IsNumber : String → Type 0
IsNumber (String.[]) = ⊥
IsNumber (String.◌∷◌ c s) = (is_digit c ≡ true) × AllDigits s

-- `version` is the longest text at the front of `text` that has the form `\d+\.\d+`.
pub record IsVersionOf (text version : String) : Type 0 where
  pub major : String
  pub minor : String
  pub rest : String
  pub shape : version ≡ major <> String.◌∷◌ "." minor
  pub prefix : text ≡ version <> rest
  pub major_number : IsNumber major
  pub minor_number : IsNumber minor
  pub longest : NoDigitNext rest

span_digits-append : (s : String) → (span_digits s).0 <> (span_digits s).1 ≡ s
unfolding span_digits
span_digits-append (String.[]) = nil-append _
span_digits-append (String.◌∷◌ c s) = elim (Bool-cases (is_digit c)) [
  | inl d ↦ rw d (rw cons-append (ap (String.◌∷◌ c) (span_digits-append s)))
  | inr d ↦ rw d (nil-append _)
]

span_digits-AllDigits : (s : String) → AllDigits (span_digits s).0
unfolding span_digits
span_digits-AllDigits (String.[]) = tt
span_digits-AllDigits (String.◌∷◌ c s) = elim (Bool-cases (is_digit c)) [
  | inl d ↦ rw d (d, span_digits-AllDigits s)
  | inr d ↦ rw d tt
]

span_digits-NoDigitNext : (s : String) → NoDigitNext (span_digits s).1
unfolding span_digits
span_digits-NoDigitNext (String.[]) = tt
span_digits-NoDigitNext (String.◌∷◌ c s) = elim (Bool-cases (is_digit c)) [
  | inl d ↦ rw d (span_digits-NoDigitNext s)
  | inr d ↦ rw d d
]

-- The scanner takes all the digits, and no more.
span_digits_longest : (a r : String) → AllDigits a → NoDigitNext r → span_digits (a <> r) ≡ (a, r)
unfolding span_digits
span_digits_longest (String.[]) (String.[]) da nr = refl
span_digits_longest (String.[]) (String.◌∷◌ c r) da nr = rw nil-append (rw nr)
span_digits_longest (String.◌∷◌ c a) r (d, da) nr =
    rw cons-append (rw (span_digits, d, span_digits_longest a r da nr))

char_eq-dot : (c : Char) → char_eq c "." ≡ true → c ≡ "."
char_eq-dot c h = codes_equal c "." (ground arith)

-- What the scanner says of a text, with the two parts named.
record Scanned (s digits rest : String) : Type 0 where
  whole : digits <> rest ≡ s
  all : AllDigits digits
  next : NoDigitNext rest

span_digits-Scanned : (s : String) → Scanned s (span_digits s).0 (span_digits s).1
span_digits-Scanned s = record {
  whole = span_digits-append s;
  all = span_digits-AllDigits s;
  next = span_digits-NoDigitNext s;
}

dot_append :
    (major minor rest : String)
    → (major <> String.◌∷◌ "." minor) <> rest ≡ major <> String.◌∷◌ "." (minor <> rest)
dot_append major minor rest =
    append_assoc major (String.◌∷◌ "." minor) rest
    ∙ ap (λ t. major <> t) (cons-append "." minor rest)

match_digits_sound :
    (text major rest digits after version : String)
    → IsNumber major
    → text ≡ major <> String.◌∷◌ "." rest
    → Scanned rest digits after
    → match_digits text major digits ≡ ok version
    → IsVersionOf text version
unfolding match_digits
match_digits_sound text major rest (String.[]) after version nm e sc h = cc
match_digits_sound text major rest (String.◌∷◌ d minor) after version nm e sc h = record {
  major = major;
  minor = String.◌∷◌ d minor;
  rest = after;
  shape = sym (ok-injective h);
  prefix =
      e
      ∙ ap (λ r. major <> String.◌∷◌ "." r) (sym sc.whole)
      ∙ sym (dot_append major (String.◌∷◌ d minor) after)
      ∙ ap (λ v. v <> after) (ok-injective h);
  major_number = nm;
  minor_number = sc.all;
  longest = sc.next;
}

match_minor_sound :
    (text major rest version : String)
    → IsNumber major
    → text ≡ major <> rest
    → match_minor text major rest ≡ ok version
    → IsVersionOf text version
unfolding match_minor
match_minor_sound text major (String.[]) version nm e h = cc
match_minor_sound text major (String.◌∷◌ c rest) version nm e h =
    elim (Bool-cases (char_eq c ".")) [
      | inl dot ↦
          match_digits_sound text major rest _ _ version nm (rw (← char_eq-dot c dot) e)
            (span_digits-Scanned rest) (rw dot at h)
      | inr other ↦ cc (other)
    ]

match_major_sound :
    (text version digits rest : String)
    → Scanned text digits rest
    → match_major text (digits, rest) ≡ ok version
    → IsVersionOf text version
unfolding match_major
match_major_sound text version (String.[]) rest sc h = cc
match_major_sound text version (String.◌∷◌ d major) rest sc h =
    match_minor_sound text _ rest version sc.all (sym sc.whole) h

parse_complete :
    (major minor rest : String)
    → IsNumber major
    → IsNumber minor
    → NoDigitNext rest
    → parse_major_minor_version ((major <> String.◌∷◌ "." minor) <> rest)
      ≡ ok (major <> String.◌∷◌ "." minor)
unfolding parse_major_minor_version
parse_complete (String.[]) minor rest nm nn nr = absurd nm
parse_complete (String.◌∷◌ d major) (String.[]) rest nm nn nr = absurd nn
parse_complete (String.◌∷◌ d major) (String.◌∷◌ k minor) rest nm nn nr =
    let text = (String.◌∷◌ d major <> String.◌∷◌ "." (String.◌∷◌ k minor)) <> rest in
    ap (match_major text) (
      ap span_digits (dot_append (String.◌∷◌ d major) (String.◌∷◌ k minor) rest)
      ∙ span_digits_longest (String.◌∷◌ d major) _ nm (unfold is_digit in refl))
    ∙ ap (λ (p : String × String). match_digits text (String.◌∷◌ d major) p.0)
        (span_digits_longest (String.◌∷◌ k minor) rest nn nr)

-- `ParseMajorMinorVersion` returns a version exactly when the text begins with one, and it returns
-- the longest: digits, a dot and digits, cut where the next character is no digit.
pub parse_major_minor_version_iff :
    (text version : String)
    → (parse_major_minor_version text ≡ ok version) ↔ IsVersionOf text version
unfolding parse_major_minor_version
parse_major_minor_version_iff text version = (
  λ h. match_major_sound text version _ _ (span_digits-Scanned text) h,
  λ v.
      rw (v.prefix, v.shape)
        (parse_complete v.major v.minor v.rest v.major_number v.minor_number v.longest),
)

cons-ne_empty : (c : Char) (s : String) → (String.◌∷◌ c s == "") ≡ false
cons-ne_empty c s = elim (Bool-cases (String.◌∷◌ c s == "")) [
  | inl e ↦ absurd (cons-ne-nil c s ((eq_iff (String.◌∷◌ c s) "").0 e))
  | inr e ↦ e
]

number-append-ne_empty : (s t : String) → IsNumber s → (s <> t == "") ≡ false
number-append-ne_empty (String.[]) t n = absurd n
number-append-ne_empty (String.◌∷◌ c s) t n = rw cons-append (cons-ne_empty c (s <> t))

-- What is parsed is not empty.
pub parse_major_minor_version-ne_empty :
    (text version : String) → parse_major_minor_version text ≡ ok version → (version == "") ≡ false
parse_major_minor_version-ne_empty text version h =
    let v = (parse_major_minor_version_iff text version).0 h in
    rw (v.shape) (number-append-ne_empty v.major _ v.major_number)
