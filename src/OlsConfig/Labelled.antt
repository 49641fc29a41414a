-- ===== src/OlsConfig/Labelled.antt =====
-- The labels of an OLSConfig after `PatchOLSConfig`.
use osls_operator.Base.{
  String, ◌≡◌, refl, ap, ◌∙◌, ◌==◌, eq_refl, eq_iff, false, Bool-cases, inl, inr, [], ◌∷◌, Option,
  none, some, ok, subst, if◌then◌else◌,
}
use osls_operator.Json.{
  Value, str, Fields, end, field, lookup_field, lookup_in, lookup_path, insert_field,
}
use osls_operator.Api.{OpenStackLightspeed}
use osls_operator.OlsConfig.Labels.{Labels, copy_labels, owner_id_label}
use osls_operator.OlsConfig.Patch.{updated_labels, patch_olsconfig}
use osls_operator.OlsConfig.Writes.{IsLawful}
use osls_operator.OlsConfig.Patched.{patch_olsconfig_sets}
use osls_operator.Platform.{Platform}

pub lookup-insert_other :
    (k j : String) (v : Value) (fields : Fields)
    → (k == j) ≡ false
    → lookup_field j (insert_field k v fields) ≡ lookup_field j fields
lookup-insert_other k j v end e = rw e refl
lookup-insert_other k j v (field h w fields) e = elim (Bool-cases (h == k)) [
  | inl q ↦ rw (q, e, (eq_iff h k).0 q) (rw e refl)
  | inr q ↦ rw (q, lookup-insert_other k j v fields e) refl
]

pub lookup-insert :
    (k : String) (v : Value) (fields : Fields) → lookup_field k (insert_field k v fields) ≡ some v
lookup-insert k v end = rw (eq_refl k) refl
lookup-insert k v (field h w fields) = elim (Bool-cases (h == k)) [
  | inl e ↦ rw (e, eq_refl k) refl
  | inr e ↦ rw (e, e) (lookup-insert k v fields)
]

-- The value of a key, if there is one.
abbrev pub find_label : String → Labels → Option String
find_label k [] = none
find_label k ((j, v) ∷ labels) = if j == k then some v else find_label k labels

-- A `map[string]string` has no key twice.
abbrev pub DistinctKeys : Labels → Type 0
DistinctKeys [] = Unit
DistinctKeys ((k, v) ∷ labels) = (find_label k labels ≡ none) × DistinctKeys labels

-- The value of the first label, or what stood there before.
abbrev label_or : Option String → Option Value → Option Value
label_or (some v) before = some (str v)
label_or none before = before

lookup-copy_labels :
    (k : String) (labels : Labels) (fields : Fields)
    → DistinctKeys labels
    → lookup_field k (copy_labels labels fields)
      ≡ label_or (find_label k labels) (lookup_field k fields)
unfolding copy_labels
lookup-copy_labels k [] fields distinct = refl
lookup-copy_labels k ((j, v) ∷ labels) fields distinct = elim (Bool-cases (j == k)) [
  | inl e ↦
      let same = (eq_iff j k).0 e in
      let fresh = subst (λ x. find_label x labels ≡ none) same distinct.0 in
      lookup-copy_labels k labels (insert_field j (str v) fields) distinct.1
      ∙ ap (λ x. label_or x (lookup_field k (insert_field j (str v) fields))) fresh
      ∙ ap (λ x. lookup_field k (insert_field x (str v) fields)) same
      ∙ lookup-insert k (str v) fields
      ∙ rw e refl
  | inr e ↦
      lookup-copy_labels k labels (insert_field j (str v) fields) distinct.1
      ∙ ap (label_or (find_label k labels)) (lookup-insert_other j k (str v) fields e)
      ∙ rw e refl
]

-- What the owner's label, alone, would show for a key.
abbrev pub owner_alone : String → String → Option Value
owner_alone uid k = if owner_id_label == k then some (str uid) else none

-- What the labels of the patched object show for a key: a label that was there as it was, and
-- the owner only where no label was.
abbrev pub patched_label : String → Labels → String → Option Value
patched_label uid labels k = label_or (find_label k labels) (owner_alone uid k)

-- Where the `unstructured` package does what its documentation says (`IsLawful`), the labels
-- of the OLSConfig have no key twice and `PatchOLSConfig` succeeds, every label that was there
-- keeps its value, the owner's label too; the owner's label shows the instance's UID if it was
-- not there; and there is no other label.
pub patch_olsconfig_labels :
    (P : Platform) (i : OpenStackLightspeed)
    → IsLawful P.uns
    → (prompt : String) (o r : Fields) (k : String) → DistinctKeys (P.uns.get_labels o)
    → patch_olsconfig P i prompt o ≡ ok r
    → lookup_path r ("metadata" ∷ "labels" ∷ k ∷ [])
      ≡ patched_label i.meta.uid (P.uns.get_labels o) k
unfolding updated_labels
patch_olsconfig_labels P i L prompt o r k distinct e =
    let (provider, built, held) = patch_olsconfig_sets P i L prompt o r e in
    ap (lookup_in k) held.0 ∙ lookup-copy_labels k (P.uns.get_labels o) _ distinct
