-- ===== src/Main/Namespaces.antt =====
-- `getWatchNamespaces` and the text that it takes apart.
use Prim.Native.Char.{Char}
use Prim.Native.String.append
use osls_operator.Base.{
  String, ◌<>◌, ◌≡◌, refl, ap, ◌∙◌, sym, arith, Bool, true, false, Bool-cases, inl, inr, Option,
  none, some, List, [], ◌∷◌, All, ok, ok-injective, if◌then◌else◌,
}
use osls_operator.Base.Text.{char_eq}
use osls_operator.Platform.{Platform}
use osls_operator.OcpVersion.Names.{char_eq-eq}
use osls_operator.Main.{extend, split, split_namespaces, get_watch_namespaces}

-- The pieces with the character between them.
abbrev pub join : Char → List String → String
join at [] = String.[]
join at (piece ∷ []) = piece
join at (piece ∷ (next ∷ pieces)) = piece <> String.◌∷◌ at (join at (next ∷ pieces))

abbrev pub occurs : Char → String → Bool
occurs at String.[] = false
occurs at (String.◌∷◌ c s) = if char_eq c at then true else occurs at s

abbrev pub Free : Char → String → Type 0
Free at piece = occurs at piece ≡ false

abbrev NonEmpty : List String → Type 0
NonEmpty [] = ⊥
NonEmpty (_ ∷ _) = Unit

NonEmpty-extend : (c : Char) (ps : List String) → NonEmpty (extend c ps)
NonEmpty-extend c [] = tt
NonEmpty-extend c (p ∷ ps) = tt

split-NonEmpty : (at : Char) (s : String) → NonEmpty (split at s)
unfolding split
split-NonEmpty at String.[] = tt
split-NonEmpty at (String.◌∷◌ c s) = elim (Bool-cases (char_eq c at)) [
  | inl e ↦ rw e tt
  | inr e ↦ rw e (NonEmpty-extend c _)
]

join-extend :
    (at c : Char) (ps : List String)
    → NonEmpty ps
    → join at (extend c ps) ≡ String.◌∷◌ c (join at ps)
join-extend at c [] h = absurd h
join-extend at c (p ∷ []) h = refl
join-extend at c (p ∷ (q ∷ ps)) h = λ i. append.cons c p (String.◌∷◌ at (join at (q ∷ ps))) i

join-empty :
    (at : Char) (ps : List String)
    → NonEmpty ps
    → join at (String.[] ∷ ps) ≡ String.◌∷◌ at (join at ps)
join-empty at [] h = absurd h
join-empty at (p ∷ ps) h = λ i. append.nil (String.◌∷◌ at (join at (p ∷ ps))) i

join-split : (at : Char) (s : String) → join at (split at s) ≡ s
unfolding split
join-split at String.[] = refl
join-split at (String.◌∷◌ c s) = elim (Bool-cases (char_eq c at)) [
  | inl e ↦ rw e (
      join-empty at (split at s) (split-NonEmpty at s)
      ∙ ap (String.◌∷◌ at) (join-split at s)
      ∙ ap (λ x. String.◌∷◌ x s) (sym (char_eq-eq c at e)))
  | inr e ↦
      rw e
        (join-extend at c (split at s) (split-NonEmpty at s) ∙ ap (String.◌∷◌ c) (join-split at s))
]

extend-Free :
    (at c : Char) (ps : List String)
    → char_eq c at ≡ false
    → All (Free at) ps
    → All (Free at) (extend c ps)
extend-Free at c [] e h = (rw e refl, tt)
extend-Free at c (p ∷ ps) e h = (rw e h.0, h.1)

split-Free : (at : Char) (s : String) → All (Free at) (split at s)
unfolding split
split-Free at String.[] = (refl, tt)
split-Free at (String.◌∷◌ c s) = elim (Bool-cases (char_eq c at)) [
  | inl e ↦ rw e (refl, split-Free at s)
  | inr e ↦ rw e (extend-Free at c (split at s) e (split-Free at s))
]

namespaces_of :
    (found : Option String) (namespaces : List String)
    → split_namespaces found ≡ ok namespaces
    → (found ≡ some (join "," namespaces)) × All (Free ",") namespaces
unfolding split_namespaces
namespaces_of none namespaces h = absurd (ground arith)
namespaces_of (some ns) namespaces h = (
  ap some (sym (ap (join ",") (sym (ok-injective h)) ∙ join-split "," ns)),
  rw (sym (ok-injective h)) (split-Free "," ns),
)

-- Where `getWatchNamespaces` succeeds, the variable WATCH_NAMESPACE is set to its namespaces
-- with a comma between each two, and no namespace holds a comma.
pub get_watch_namespaces_lem :
    (P : Platform) (namespaces : List String)
    → get_watch_namespaces P ≡ ok namespaces
    → (P.lookup_env "WATCH_NAMESPACE" ≡ some (join "," namespaces)) × All (Free ",") namespaces
unfolding get_watch_namespaces
get_watch_namespaces_lem P namespaces h =
    namespaces_of (P.lookup_env "WATCH_NAMESPACE") namespaces h
