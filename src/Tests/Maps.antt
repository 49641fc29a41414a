-- ===== src/Tests/Maps.antt =====
-- The `unstructured` calls, on association lists.
use osls_operator.Base.{
  String, ◌<>◌, ◌≡◌, refl, sym, ap, ◌∙◌, arith, ◌==◌, Bool, true, false, ◌||◌, Bool-cases, inl, inr,
  List, [], ◌∷◌, Option, none, some, Result, ok, err, ok-injective, new_error, if◌then◌else◌,
  eq_iff,
}
use osls_operator.Base.Fallible.{◌>>=◌, >>=-ok}
use osls_operator.Json.{
  Value, str, slice, object, Values, nil, cons, Fields, end, field, lookup_field, lookup_in,
  lookup_from, lookup_path, insert_field,
}
use osls_operator.Platform.{Unstructured}
use osls_operator.OlsConfig.Labelled.{lookup-insert, lookup-insert_other}
use osls_operator.OlsConfig.Patch.{is_nil}
use osls_operator.OlsConfig.Writes.{IsLawful, diverges}

-- The map that stands at a key: an empty one where there is none.
abbrev map_at : Option Value → Result Fields
map_at none = ok end
map_at (some (object fs)) = ok fs
map_at (some _) = err (new_error "not a map")

abbrev put : String → Fields → Result Fields → Result Fields
put k o (ok r) = ok (insert_field k (object r) o)
put k o (err e) = err e

abbrev pub set_path : List String → Value → Fields → Result Fields
set_path [] v o = err (new_error "no path")
set_path (k ∷ []) v o = ok (insert_field k v o)
set_path (k ∷ (j ∷ p)) v o = put k o (map_at (lookup_field k o) >>= set_path (j ∷ p) v)

lookup_from-none : (p : List String) → lookup_from none p ≡ none
lookup_from-none [] = refl
lookup_from-none (k ∷ p) = lookup_from-none p

put-ok :
    (k : String) (o r : Fields) (x : Result Fields)
    → put k o x ≡ ok r
    → (m : Fields) × (x ≡ ok m) × (insert_field k (object m) o ≡ r)
put-ok k o r (ok m) h = (m, refl, ok-injective h)
put-ok k o r (err e) h = absurd (ground arith)

set_path-set :
    (p : List String) (v : Value) (o r : Fields)
    → is_nil p ≡ false
    → set_path p v o ≡ ok r
    → lookup_path r p ≡ some v
set_path-set [] v o r n h = cc
set_path-set (k ∷ []) v o r n h = rw (sym (ok-injective h)) (lookup-insert k v o)
set_path-set (k ∷ (j ∷ p)) v o r n h =
    let (m, e, is) = put-ok k o r _ h in
    let (inner, _, set) = >>=-ok (map_at (lookup_field k o)) _ m e in
    ap (λ x. lookup_from (lookup_field k x) (j ∷ p)) (sym is)
    ∙ ap (λ x. lookup_from x (j ∷ p)) (lookup-insert k (object m) o)
    ∙ set_path-set (j ∷ p) v inner m refl set

map_at-lookup :
    (x : Option Value) (m : Fields) (j : String)
    → map_at x ≡ ok m
    → lookup_field j m ≡ lookup_in j x
map_at-lookup none m j h = rw (sym (ok-injective h)) refl
map_at-lookup (some (object fs)) m j h = rw (sym (ok-injective h)) refl
map_at-lookup (some (str _)) m j h = absurd (ground arith)
map_at-lookup (some _) m j h = absurd (ground arith)

different : (k h : String) (p q : List String) → diverges (k ∷ []) (h ∷ q) ≡ true → (k == h) ≡ false
different k h p [] d = ground arith
different k h p (g ∷ q) d = ground arith

below :
    (k g j : String) (p q : List String) (o inner m : Fields)
    → k ≡ g
    → diverges (j ∷ p) q ≡ true
    → map_at (lookup_field k o) ≡ ok inner
    → lookup_path m q ≡ lookup_path inner q
    → lookup_from (lookup_field g (insert_field k (object m) o)) q
      ≡ lookup_from (lookup_field g o) q
below k g j p [] o inner m e d at same = absurd (ground arith)
below k g j p (h ∷ q) o inner m e d at same =
    ap (λ x. lookup_from (lookup_field x (insert_field k (object m) o)) (h ∷ q)) (sym e)
    ∙ ap (λ x. lookup_from x (h ∷ q)) (lookup-insert k (object m) o)
    ∙ same
    ∙ ap (λ x. lookup_from x q) (map_at-lookup (lookup_field k o) inner h at)
    ∙ ap (λ x. lookup_from (lookup_field x o) (h ∷ q)) e

set_path-other :
    (p q : List String) (v : Value) (o r : Fields)
    → diverges p q ≡ true
    → set_path p v o ≡ ok r
    → lookup_path r q ≡ lookup_path o q
set_path-other [] q v o r d h = absurd (ground arith)
set_path-other (k ∷ p) [] v o r d h = absurd (ground arith)
set_path-other (k ∷ []) (g ∷ q) v o r d h =
    rw (sym (ok-injective h))
      (ap (λ x. lookup_from x q) (lookup-insert_other k g v o (different k g [] q d)))
set_path-other (k ∷ (j ∷ p)) (g ∷ q) v o r d h =
    let (m, e, is) = put-ok k o r _ h in
    let (inner, at, set) = >>=-ok (map_at (lookup_field k o)) _ m e in
    elim (Bool-cases (k == g)) [
      | inr apart ↦
          rw (sym is) (ap (λ x. lookup_from x q) (lookup-insert_other k g (object m) o apart))
      | inl eq ↦ rw (sym is) (
          below k g j p q o inner m ((eq_iff k g).0 eq) (rw eq at d) at
            (set_path-other (j ∷ p) q v inner m (rw eq at d) set))
    ]

abbrev string_entries : Fields → List (String × String)
string_entries end = []
string_entries (field k (str v) fs) = (k, v) ∷ string_entries fs
string_entries (field k _ fs) = string_entries fs

abbrev labels_in : Option Value → List (String × String)
labels_in (some (object fs)) = string_entries fs
labels_in _ = []

abbrev object_of : List (String × String) → Fields
object_of [] = end
object_of ((k, v) ∷ labels) = field k (str v) (object_of labels)

abbrev strings_in : Option Value → Values
strings_in (some (slice vs)) = vs
strings_in _ = nil

abbrev holds : String → Values → Bool
holds f nil = false
holds f (cons (str g) vs) = g == f || holds f vs
holds f (cons _ vs) = holds f vs

abbrev without : String → Values → Values
without f nil = nil
without f (cons (str g) vs) = if g == f then without f vs else cons (str g) (without f vs)
without f (cons v vs) = cons v (without f vs)

abbrev or_same : Fields → Result Fields → Fields
or_same o (ok r) = r
or_same o (err e) = o

abbrev string_at : Option Value → Result (Option String)
string_at none = ok none
string_at (some (str s)) = ok (some s)
string_at (some _) = err (new_error "not a string")

abbrev labels_path : List String
labels_path = "metadata" ∷ "labels" ∷ []

abbrev finalizers_path : List String
finalizers_path = "metadata" ∷ "finalizers" ∷ []

abbrev with_finalizer : Fields → String → Values → Fields × Bool
with_finalizer o f vs =
    if holds f vs
    then (o, false)
    else (or_same o (set_path finalizers_path (slice (cons (str f) vs)) o), true)

abbrev without_finalizer : Fields → String → Values → Fields × Bool
without_finalizer o f vs =
    if holds f vs
    then (or_same o (set_path finalizers_path (slice (without f vs)) o), true)
    else (o, false)

abbrev pub maps : Unstructured
maps = record {
  set_group_version_kind = λ o group version kind. or_same o (
      set_path ("apiVersion" ∷ []) (str (group <> ("/" <> version)))
        (or_same o (set_path ("kind" ∷ []) (str kind) o)));
  set_name = λ o name. or_same o (set_path ("metadata" ∷ "name" ∷ []) (str name) o);
  set_nested_field = λ o v p. set_path p v o;
  set_nested_slice = λ o vs p. set_path p (slice vs) o;
  nested_string = λ o p. string_at (lookup_path o p);
  get_labels = λ o. labels_in (lookup_path o labels_path);
  set_labels = λ o labels. or_same o (set_path labels_path (object (object_of labels)) o);
  add_finalizer = λ o f. with_finalizer o f (strings_in (lookup_path o finalizers_path));
  remove_finalizer = λ o f. without_finalizer o f (strings_in (lookup_path o finalizers_path));
}

or_same-other :
    (o : Fields) (x : Result Fields) (q : List String)
    → ((r : Fields) → x ≡ ok r → lookup_path r q ≡ lookup_path o q)
    → lookup_path (or_same o x) q ≡ lookup_path o q
or_same-other o (ok r) q h = h r refl
or_same-other o (err e) q h = refl

with_finalizer-other :
    (o : Fields) (f : String) (vs : Values) (q : List String)
    → diverges finalizers_path q ≡ true
    → lookup_path (with_finalizer o f vs).0 q ≡ lookup_path o q
with_finalizer-other o f vs q d = elim (Bool-cases (holds f vs)) [
  | inl e ↦ rw e refl
  | inr e ↦ rw e (
      or_same-other o (set_path finalizers_path (slice (cons (str f) vs)) o) q
        (λ r h. set_path-other finalizers_path q (slice (cons (str f) vs)) o r d h))
]

pub maps-IsLawful : IsLawful maps
maps-IsLawful = record {
  field_set = λ o v p r n e. set_path-set p v o r n e;
  field_other = λ o v p q r d e. set_path-other p q v o r d e;
  slice_set = λ o vs p r n e. set_path-set p (slice vs) o r n e;
  slice_other = λ o vs p q r d e. set_path-other p q (slice vs) o r d e;
  add_finalizer_other =
      λ o f q d. with_finalizer-other o f (strings_in (lookup_path o finalizers_path)) q d;
  labels_from = λ o r e. ap labels_in e;
}
