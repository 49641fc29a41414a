-- ===== src/OlsConfig/Writes.antt =====
-- Sequences of writes to an unstructured object: what they leave in it and what they leave alone.
use osls_operator.Base.{
  String, ◌≡◌, ◌∙◌, ◌==◌, Bool, true, false, not, ◌&&◌, List, [], ◌∷◌, All, some, Result, ok,
  ok-injective, not-eq-true, and_left, and_right, if◌then◌else◌,
}
use osls_operator.Base.Fallible.{◌>>=◌, >>=-ok}
use osls_operator.Json.{Value, slice, Values, Fields, lookup_path}
use osls_operator.Platform.{Unstructured}
use osls_operator.OlsConfig.Patch.{is_nil}

-- Two paths lead to different places: they differ at some key, and neither goes on from the other.
abbrev pub diverges : List String → List String → Bool
diverges [] q = false
diverges (k ∷ p) [] = false
diverges (k ∷ p) (j ∷ q) = if k == j then diverges p q else true

-- What the documentation of the `unstructured` package and of controllerutil says of these calls.
pub record IsLawful (U : Unstructured) : Type 0 where
  pub field_set :
      (o : Fields) (v : Value) (p : List String) (r : Fields)
      → is_nil p ≡ false
      → U.set_nested_field o v p ≡ ok r
      → lookup_path r p ≡ some v
  pub field_other :
      (o : Fields) (v : Value) (p q : List String) (r : Fields)
      → diverges p q ≡ true
      → U.set_nested_field o v p ≡ ok r
      → lookup_path r q ≡ lookup_path o q
  pub slice_set :
      (o : Fields) (vs : Values) (p : List String) (r : Fields)
      → is_nil p ≡ false
      → U.set_nested_slice o vs p ≡ ok r
      → lookup_path r p ≡ some (slice vs)
  pub slice_other :
      (o : Fields) (vs : Values) (p q : List String) (r : Fields)
      → diverges p q ≡ true
      → U.set_nested_slice o vs p ≡ ok r
      → lookup_path r q ≡ lookup_path o q
  pub add_finalizer_other :
      (o : Fields) (f : String) (q : List String)
      → diverges ("metadata" ∷ "finalizers" ∷ []) q ≡ true
      → lookup_path (U.add_finalizer o f).0 q ≡ lookup_path o q
  pub labels_from :
      (o r : Fields)
      → lookup_path r ("metadata" ∷ "labels" ∷ []) ≡ lookup_path o ("metadata" ∷ "labels" ∷ [])
      → U.get_labels r ≡ U.get_labels o

pub data Write : Type 0 where
  field_write : List String → Value → Write
  slice_write : List String → Values → Write

abbrev pub path_of : Write → List String
path_of (field_write p v) = p
path_of (slice_write p vs) = p

abbrev pub value_of : Write → Value
value_of (field_write p v) = v
value_of (slice_write p vs) = slice vs

-- The object holds what was written.
abbrev pub Holds : Fields → Write → Type 0
Holds o w = lookup_path o (path_of w) ≡ some (value_of w)

-- The path leads to a place that no write touches.
abbrev pub untouched : List String → List Write → Bool
untouched q [] = true
untouched q (w ∷ ws) = diverges (path_of w) q && untouched q ws

-- No later write touches what an earlier one has written.
abbrev pub separate : List Write → Bool
separate [] = true
separate (w ∷ ws) = not (is_nil (path_of w)) && (untouched (path_of w) ws && separate ws)

module _ (U : Unstructured) where
  abbrev pub perform : Write → Fields → Result Fields
  perform (field_write p v) o = U.set_nested_field o v p
  perform (slice_write p vs) o = U.set_nested_slice o vs p

  unfoldable pub perform_all : List Write → Fields → Result Fields
  perform_all [] o = ok o
  perform_all (w ∷ ws) o = perform w o >>= perform_all ws

module _ (U : Unstructured) (L : IsLawful U) where
  perform_other :
      (w : Write) (o r : Fields) (q : List String)
      → diverges (path_of w) q ≡ true
      → perform U w o ≡ ok r
      → lookup_path r q ≡ lookup_path o q
  perform_other (field_write p v) o r q d e = L.field_other o v p q r d e
  perform_other (slice_write p vs) o r q d e = L.slice_other o vs p q r d e

  perform_set :
      (w : Write) (o r : Fields) → is_nil (path_of w) ≡ false → perform U w o ≡ ok r → Holds r w
  perform_set (field_write p v) o r n e = L.field_set o v p r n e
  perform_set (slice_write p vs) o r n e = L.slice_set o vs p r n e

  perform_all_step :
      (w : Write) (ws : List Write) (o r : Fields)
      → perform_all U (w ∷ ws) o ≡ ok r
      → (m : Fields) × (perform U w o ≡ ok m) × (perform_all U ws m ≡ ok r)
  unfolding perform_all
  perform_all_step w ws o r e = >>=-ok (perform U w o) (perform_all U ws) r e

  -- A place that no write touches keeps its value.
  pub perform_all_frame :
      (ws : List Write) (o r : Fields) (q : List String)
      → untouched q ws ≡ true
      → perform_all U ws o ≡ ok r
      → lookup_path r q ≡ lookup_path o q
  perform_all_frame [] o r q u e = unfold perform_all in rw (ok-injective e)
  perform_all_frame (w ∷ ws) o r q u e =
      let (m, first, rest) = perform_all_step w ws o r e in
      perform_all_frame ws m r q (and_right _ _ u) rest
      ∙ perform_other w o m q (and_left _ _ u) first

  -- Separate writes are all found in the result.
  pub perform_all-Holds :
      (ws : List Write) (o r : Fields)
      → separate ws ≡ true
      → perform_all U ws o ≡ ok r
      → All (Holds r) ws
  perform_all-Holds [] o r s e = tt
  perform_all-Holds (w ∷ ws) o r s e =
      let (m, first, rest) = perform_all_step w ws o r e in
      let later = and_right _ _ s in
      (
        perform_all_frame ws m r (path_of w) (and_left _ _ later) rest
            ∙ perform_set w o m (not-eq-true _ (and_left _ _ s)) first,
        perform_all-Holds ws m r (and_right _ _ later) rest,
      )
