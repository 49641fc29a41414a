-- ===== src/OlsConfig/Patched.antt =====
-- What `PatchOLSConfig` leaves in an OLSConfig.
use osls_operator.Base.{
  String, ◌≡◌, refl, sym, ap, ◌∙◌, arith, ◌==◌, inl, inr, Bool, true, not, ◌&&◌, List, [], ◌∷◌, All,
  some, ok, ok-injective, Bool-cases, and_left, and_right, if◌then◌else◌,
}
use osls_operator.Base.Fallible.{◌>>=◌, >>=-ok, >>=-ok_right}
use osls_operator.Json.{Value, str, boolean, object, nil, cons, Fields, lookup_path}
use osls_operator.Api.{OpenStackLightspeed}
use osls_operator.OlsConfig.Rag.{build_rag_configs}
use osls_operator.OlsConfig.Patch.{
  default_provider, updated_labels, set_unless_empty, build_provider, patch_spec, finalizer_added,
  patch_olsconfig, is_nil,
}
use osls_operator.OlsConfig.Writes.{
  Write, field_write, slice_write, Holds, IsLawful, diverges, path_of, untouched, separate,
  perform_all, perform_all_frame, perform_all-Holds,
}
use osls_operator.Platform.{Platform}

module _ (P : Platform) (i : OpenStackLightspeed) where
  abbrev ca_writes : List Write → List Write
  ca_writes ws =
      if i.spec.tls_ca_cert_bundle == ""
      then ws
      else field_write ("spec" ∷ "ols" ∷ "additionalCAConfigMapRef" ∷ "name" ∷ [])
          (str i.spec.tls_ca_cert_bundle)
        ∷ ws

  abbrev ols_writes : String → List Write
  ols_writes prompt =
      field_write ("spec" ∷ "ols" ∷ "defaultModel" ∷ []) (str i.spec.model_name)
      ∷ field_write ("spec" ∷ "ols" ∷ "defaultProvider" ∷ []) (str default_provider)
      ∷ field_write ("spec" ∷ "ols" ∷ "byokRAGOnly" ∷ []) (boolean true)
      ∷ field_write ("spec" ∷ "ols" ∷ "userDataCollection" ∷ "feedbackDisabled" ∷ [])
          (boolean i.spec.feedback_disabled)
      ∷ field_write ("spec" ∷ "ols" ∷ "userDataCollection" ∷ "transcriptsDisabled" ∷ [])
          (boolean i.spec.transcripts_disabled)
      ∷ field_write ("spec" ∷ "ols" ∷ "querySystemPrompt" ∷ []) (str prompt)
      ∷ []

  -- All that the patch writes below `spec`, for a given provider.
  abbrev pub spec_writes : String → Fields → List Write
  spec_writes prompt provider =
      slice_write ("spec" ∷ "llm" ∷ "providers" ∷ []) (cons (object provider) nil)
      ∷ slice_write ("spec" ∷ "ols" ∷ "rag" ∷ [])
          (build_rag_configs i i.status.active_ocp_rag_version)
      ∷ ca_writes (ols_writes prompt)

  patch_spec_writes :
      (prompt : String) (o : Fields)
      → patch_spec P i prompt o
        ≡ (build_provider P i >>= λ provider. perform_all P.uns (spec_writes prompt provider) o)
  unfolding patch_spec perform_all
  patch_spec_writes prompt o = elim (Bool-cases (i.spec.tls_ca_cert_bundle == "")) [
    | inl e ↦ rw (set_unless_empty, e) (simp >>=-ok_right)
    | inr e ↦ rw (set_unless_empty, e) (simp >>=-ok_right)
  ]

  separate-spec_writes :
      (prompt : String) (provider : Fields) → separate (spec_writes prompt provider) ≡ true
  separate-spec_writes prompt provider = elim (Bool-cases (i.spec.tls_ca_cert_bundle == "")) [
    | inl e ↦ rw e refl
    | inr e ↦ rw e refl
  ]

  finalizer_added-ok : (p : Fields × Bool) (r : Fields) → finalizer_added P i p ≡ ok r → p.0 ≡ r
  unfolding finalizer_added
  finalizer_added-ok (config, added) r e =
      elim (Bool-cases (not added && is_nil i.status.conditions)) [
        | inl c ↦ absurd (ground arith)
        | inr c ↦ ok-injective (rw c at e)
      ]

  abbrev labels_path : List String
  labels_path = "metadata" ∷ "labels" ∷ []

  abbrev finalizers_path : List String
  finalizers_path = "metadata" ∷ "finalizers" ∷ []

  -- What a successful patch went through.
  patch_olsconfig_steps :
      (prompt : String) (o r : Fields)
      → patch_olsconfig P i prompt o ≡ ok r
      → (provider : Fields) × (patched : Fields) × (labelled : Fields) × (build_provider P i
          ≡ ok provider)
        × (perform_all P.uns (spec_writes prompt provider) o ≡ ok patched)
        × (P.uns.set_nested_field patched
              (object (updated_labels i.meta.uid (P.uns.get_labels patched)))
              labels_path
            ≡ ok labelled)
        × ((P.uns.add_finalizer labelled P.finalizer).0 ≡ r)
  unfolding patch_olsconfig
  patch_olsconfig_steps prompt o r e =
      let (patched, first, rest) = >>=-ok (patch_spec P i prompt o) _ r e in
      let (labelled, second, last) =
        >>=-ok (P.uns.set_nested_field patched _ labels_path) _ r rest in
      let (provider, built, writes) =
        >>=-ok (build_provider P i) _ patched (sym (patch_spec_writes prompt o) ∙ first) in
      (provider, patched, labelled, built, writes, second, finalizer_added-ok _ r last)

  -- The path leads neither to the labels nor to the finalizers.
  abbrev pub outside_metadata : List String → Bool
  outside_metadata q = diverges labels_path q && diverges finalizers_path q

  abbrev all_outside : List Write → Bool
  all_outside [] = true
  all_outside (w ∷ ws) = outside_metadata (path_of w) && all_outside ws

  Holds-kept :
      (ws : List Write) (o r : Fields)
      → ((q : List String) → outside_metadata q ≡ true → lookup_path r q ≡ lookup_path o q)
      → all_outside ws ≡ true
      → All (Holds o) ws
      → All (Holds r) ws
  Holds-kept [] o r same out held = tt
  Holds-kept (w ∷ ws) o r same out held = (
    same (path_of w) (and_left _ _ out) ∙ held.0,
    Holds-kept ws o r same (and_right _ _ out) held.1,
  )

  all_outside-spec_writes :
      (prompt : String) (provider : Fields) → all_outside (spec_writes prompt provider) ≡ true
  all_outside-spec_writes prompt provider = elim (Bool-cases (i.spec.tls_ca_cert_bundle == "")) [
    | inl e ↦ rw e refl
    | inr e ↦ rw e refl
  ]

  labels-untouched :
      (prompt : String) (provider : Fields)
      → untouched labels_path (spec_writes prompt provider) ≡ true
  labels-untouched prompt provider = elim (Bool-cases (i.spec.tls_ca_cert_bundle == "")) [
    | inl e ↦ rw e refl
    | inr e ↦ rw e refl
  ]

  module _ (L : IsLawful P.uns) where
    metadata_frame :
        (patched labelled : Fields) (v : Value) (q : List String)
        → P.uns.set_nested_field patched v labels_path ≡ ok labelled
        → outside_metadata q ≡ true
        → lookup_path (P.uns.add_finalizer labelled P.finalizer).0 q ≡ lookup_path patched q
    metadata_frame patched labelled v q e out =
        L.add_finalizer_other labelled P.finalizer q (and_right _ _ out)
        ∙ L.field_other patched v labels_path q labelled (and_left _ _ out) e

    sets_of_steps :
        (prompt : String) (provider o patched labelled r : Fields)
        → perform_all P.uns (spec_writes prompt provider) o ≡ ok patched
        → P.uns.set_nested_field patched
            (object (updated_labels i.meta.uid (P.uns.get_labels patched)))
            labels_path
          ≡ ok labelled
        → (P.uns.add_finalizer labelled P.finalizer).0 ≡ r
        → All (Holds r) (
            field_write labels_path (object (updated_labels i.meta.uid (P.uns.get_labels o)))
            ∷ spec_writes prompt provider)
    sets_of_steps prompt provider o patched labelled r writes set last =
        let same =
          perform_all_frame P.uns L (spec_writes prompt provider) o patched labels_path
            (labels-untouched prompt provider) writes in
        let held =
          perform_all-Holds P.uns L (spec_writes prompt provider) o patched
            (separate-spec_writes prompt provider) writes in
        (
          ap (λ x. lookup_path x labels_path) (sym last)
              ∙ L.add_finalizer_other labelled P.finalizer labels_path refl
              ∙ L.field_set patched _ labels_path labelled refl set
              ∙ ap (λ x. some (object (updated_labels i.meta.uid x)))
                  (L.labels_from o patched same),
          Holds-kept (spec_writes prompt provider) patched r
              (λ q out.
                ap (λ x. lookup_path x q) (sym last) ∙ metadata_frame patched labelled _ q set out)
              (all_outside-spec_writes prompt provider) held,
        )

    -- Where the `unstructured` package does what its documentation says (`IsLawful`) and
    -- `PatchOLSConfig` succeeds, the OLSConfig that it leaves holds every setting that it
    -- writes below `spec`, with the provider that `build_provider` makes, and as its labels
    -- the owner's label with the labels that were there copied over it.
    pub patch_olsconfig_sets :
        (prompt : String) (o r : Fields)
        → patch_olsconfig P i prompt o ≡ ok r
        → (provider : Fields) × (build_provider P i ≡ ok provider)
          × All (Holds r) (
              field_write labels_path (object (updated_labels i.meta.uid (P.uns.get_labels o)))
              ∷ spec_writes prompt provider)
    patch_olsconfig_sets prompt o r e =
        let (provider, patched, labelled, built, writes, set, last) =
          patch_olsconfig_steps prompt o r e in
        (provider, built, sets_of_steps prompt provider o patched labelled r writes set last)

    -- Where the `unstructured` package does what its documentation says (`IsLawful`) and
    -- `PatchOLSConfig` succeeds, a place outside the labels and the finalizers that none of
    -- its writes leads to or goes through holds what it held before.
    pub patch_olsconfig_frame :
        (prompt : String) (o r : Fields) (q : List String)
        → patch_olsconfig P i prompt o ≡ ok r
        → outside_metadata q ≡ true
        → ((provider : Fields) → untouched q (spec_writes prompt provider) ≡ true)
        → lookup_path r q ≡ lookup_path o q
    patch_olsconfig_frame prompt o r q e out apart =
        let (provider, patched, labelled, built, writes, set, last) =
          patch_olsconfig_steps prompt o r e in
        rw (sym last) (
          metadata_frame patched labelled _ q set out
          ∙ perform_all_frame P.uns L (spec_writes prompt provider) o patched q (apart provider)
              writes)
