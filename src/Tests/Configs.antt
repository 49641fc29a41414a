-- ===== src/Tests/Configs.antt =====
-- The theorems on the OLSConfig, at objects and clusters in memory.
use osls_operator.Base.{
  String, ◌≡◌, ◌≢◌, refl, ◌⊎◌, true, false, some, [], ◌∷◌, All, Result, ok, err, new_error,
}
use osls_operator.Json.{str, object, Fields, end, field, lookup_path}
use osls_operator.Platform.{none_done}
use osls_operator.Platform.Exec.{returns, fails, World, patched_olsconfig, deleted_olsconfig}
use osls_operator.OlsConfig.Labels.{owner_id_label}
use osls_operator.OlsConfig.Patch.{build_provider, patch_olsconfig, updated_labels}
use osls_operator.OlsConfig.Writes.{Holds, field_write}
use osls_operator.OlsConfig.Patched.{spec_writes, patch_olsconfig_sets, patch_olsconfig_frame}
use osls_operator.OlsConfig.Sources.{build_rag_configs-injective}
use osls_operator.OlsConfig.Labels.{label}
use osls_operator.SystemPrompt.{get_system_prompt}
use osls_operator.Controller.Reconcile.{mutate_olsconfig}
use osls_operator.Controller.Takes.{mutate_olsconfig_takes}
use osls_operator.Tests.Store.{defaults}
use osls_operator.OlsConfig.Labelled.{patch_olsconfig_labels}
use osls_operator.OlsConfig.Remove.{mutate_removed, remove_olsconfig}
use osls_operator.OlsConfig.Removal.{
  LastAbsent, remove_true, remove_deletes_foreign, remove_stuck_without_finalizer,
}
use osls_operator.OlsConfig.Ready.{is_olsconfig_ready}
use osls_operator.OlsConfig.Pinged.{is_olsconfig_ready_trace}
use osls_operator.Platform.Kinds.{kinds, update_config}
use osls_operator.Tests.Memory.{Cluster}
use osls_operator.Tests.Maps.{maps, maps-IsLawful}
use osls_operator.Tests.Store.{memory, live, labelled, installed, start}

-- What was there stays: a key of somebody else below `spec`.
abbrev kept : Fields
kept =
    field "spec" (object (field "ols" (object (field "logLevel" (str "DEBUG") end)) end))
      (labelled "12345-abc")

abbrev result_of : Fields → Result Fields → Fields
result_of o (ok r) = r
result_of o (err e) = o

abbrev patched : Fields
unfolding patch_olsconfig
patched = result_of end (patch_olsconfig memory live "prompt" kept)

patch_succeeds : patch_olsconfig memory live "prompt" kept ≡ ok patched
unfolding patch_olsconfig build_provider
patch_succeeds = refl

patch_olsconfig_sets_example :
    (provider : Fields) × (build_provider memory live ≡ ok provider)
    × All (Holds patched) (
        field_write
          ("metadata" ∷ "labels" ∷ [])
          (object (updated_labels live.meta.uid (maps.get_labels kept)))
        ∷ spec_writes memory live "prompt" provider)
patch_olsconfig_sets_example =
    patch_olsconfig_sets memory live maps-IsLawful "prompt" kept patched patch_succeeds

patch_olsconfig_frame_example :
    lookup_path patched ("spec" ∷ "ols" ∷ "logLevel" ∷ []) ≡ some (str "DEBUG")
patch_olsconfig_frame_example =
    patch_olsconfig_frame memory live maps-IsLawful "prompt" kept patched
      ("spec" ∷ "ols" ∷ "logLevel" ∷ []) patch_succeeds refl (λ provider. refl)

-- An OLSConfig with an empty text under the owner's label.
abbrev unclaimed : Fields
unclaimed = labelled ""

abbrev still_unclaimed : Fields
unfolding patch_olsconfig
still_unclaimed = result_of end (patch_olsconfig memory live "prompt" unclaimed)

unclaimed_succeeds : patch_olsconfig memory live "prompt" unclaimed ≡ ok still_unclaimed
unfolding patch_olsconfig build_provider
unclaimed_succeeds = refl

patch_olsconfig_labels_example :
    lookup_path still_unclaimed ("metadata" ∷ "labels" ∷ owner_id_label ∷ []) ≡ some (str "")
patch_olsconfig_labels_example =
    patch_olsconfig_labels memory live maps-IsLawful "prompt" unclaimed still_unclaimed
      owner_id_label (refl, tt) unclaimed_succeeds

-- A world whose one OLSConfig belongs to this owner.
abbrev owned_by : String → World Cluster
owned_by uid = start (record (installed live) { configs = labelled uid ∷ [] }) live

abbrev no_config : World Cluster
no_config = start (record (installed live) { configs = [] }) live

remove_true_example : LastAbsent memory (remove_olsconfig memory live no_config).1.cluster
unfolding remove_olsconfig osls_operator.OlsConfig.Get.get_olsconfig
remove_true_example = remove_true memory live no_config refl

remove_deletes_foreign_example :
    (mutate_removed memory live (labelled "other") ≡ returns (labelled "other"))
    × ((remove_olsconfig memory live (owned_by "other")).1.trace
        ≡ deleted_olsconfig (labelled "other") ∷ patched_olsconfig (labelled "other") ∷ [])
unfolding osls_operator.OlsConfig.Remove.is_foreign osls_operator.OlsConfig.Labels.label
    mutate_removed
remove_deletes_foreign_example =
    remove_deletes_foreign memory live (owned_by "other") (labelled "other") (labelled "other") []
      (owned_by "other").cluster (owned_by "other").cluster none_done refl refl refl

remove_stuck_without_finalizer_example :
    ((remove_olsconfig memory live (owned_by "12345-abc")).0
      ≡ fails (new_error "remove finalizer failed"))
    × ((remove_olsconfig memory live (owned_by "12345-abc")).1.trace
        ≡ patched_olsconfig (labelled "12345-abc") ∷ [])
unfolding osls_operator.OlsConfig.Remove.is_foreign osls_operator.OlsConfig.Labels.label
remove_stuck_without_finalizer_example =
    remove_stuck_without_finalizer memory live (owned_by "12345-abc") (labelled "12345-abc") []
      (owned_by "12345-abc").cluster refl refl refl (λ f e h. rw h refl)

is_olsconfig_ready_trace_example :
    let r = is_olsconfig_ready memory (owned_by "12345-abc") in
    ((r.0 ≡ returns true) × (r.1.trace ≡ []))
    ⊎ (((r.0 ≢ returns true) × (kinds r.1.trace ≡ update_config ∷ []))
        ⊎ ((r.0 ≢ returns true) × (r.0 ≢ returns false) × (r.1.trace ≡ [])))
is_olsconfig_ready_trace_example = is_olsconfig_ready_trace memory (owned_by "12345-abc")

abbrev given : String
given = "4.18"

abbrev taken : Fields
unfolding patch_olsconfig
taken = result_of end (patch_olsconfig memory live get_system_prompt kept)

build_rag_configs-injective_example : given ≡ given
build_rag_configs-injective_example = build_rag_configs-injective live given given refl

mutate_olsconfig_takes_example :
    let owner = label owner_id_label (maps.get_labels kept) in
    ((owner ≡ "") ⊎ (owner ≡ live.meta.uid))
    × (patch_olsconfig memory live get_system_prompt kept ≡ ok taken)
unfolding mutate_olsconfig patch_olsconfig build_provider
mutate_olsconfig_takes_example = mutate_olsconfig_takes memory defaults live kept taken refl
