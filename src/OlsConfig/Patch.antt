-- ===== src/OlsConfig/Patch.antt =====
-- funcs.go: `PatchOLSConfig`
use osls_operator.Base.{
  String, Bool, true, false, not, ◌&&◌, ◌==◌, List, [], ◌∷◌, Result, ok, err, new_error,
  if◌then◌else◌,
}
use osls_operator.Base.Fallible.{◌>>=◌}
use osls_operator.Json.{str, float64, boolean, slice, object, nil, cons, Fields, end, field}
use osls_operator.Api.{OpenStackLightspeed}
use osls_operator.OlsConfig.Labels.{owner_id_label, copy_labels}
use osls_operator.OlsConfig.Rag.{build_rag_configs}
use osls_operator.Platform.{Platform}

-- `OpenStackLightspeedDefaultProvider`
abbrev pub default_provider : String
default_provider = "openstack-lightspeed-provider"

abbrev pub is_nil {ℓ} : {A : Type ℓ} → List A → Bool
is_nil [] = true
is_nil (_ ∷ _) = false

-- The literal `providersPatch[0]`.
unfoldable pub provider_base : OpenStackLightspeed → Fields
provider_base instance =
    field "credentialsSecretRef" (object (field "name" (str instance.spec.llm_credentials) end)) (
      field "models"
        (slice (
          cons
            (object (
              field "name" (str instance.spec.model_name) (
                field "parameters"
                  (object (
                    field "maxTokensForResponse" (float64 instance.spec.max_tokens_for_response)
                      end))
                  end)))
            nil))
        (field "name" (str default_provider) (
          field "type" (str instance.spec.llm_endpoint_type)
            (field "url" (str instance.spec.llm_endpoint) end))))

-- `updatedLabels`: the owner, and then the labels that were there.
unfoldable pub updated_labels : String → List (String × String) → Fields
unfolding copy_labels
updated_labels uid labels = copy_labels labels (field owner_id_label (str uid) end)

module _ (P : Platform) (instance : OpenStackLightspeed) where
  -- `if value != "" { uns.SetNestedField(…) }`
  unfoldable pub set_unless_empty : String → List String → Fields → Result Fields
  set_unless_empty value path fields =
      if value == "" then ok fields else P.uns.set_nested_field fields (str value) path

  unfoldable pub build_provider : Result Fields
  unfolding set_unless_empty provider_base
  build_provider = do
    p ← set_unless_empty instance.spec.llm_project_id ("projectID" ∷ []) (provider_base instance)
    q ← set_unless_empty instance.spec.llm_deployment_name ("deploymentName" ∷ []) p
    set_unless_empty instance.spec.llm_api_version ("apiVersion" ∷ []) q

  unfoldable pub patch_spec : String → Fields → Result Fields
  unfolding set_unless_empty
  patch_spec system_prompt config = do
    provider ← build_provider
    a ←
        P.uns.set_nested_slice config (cons (object provider) nil)
          ("spec" ∷ "llm" ∷ "providers" ∷ [])
    b ←
        P.uns.set_nested_slice a (build_rag_configs instance instance.status.active_ocp_rag_version)
          ("spec" ∷ "ols" ∷ "rag" ∷ [])
    c ←
        set_unless_empty instance.spec.tls_ca_cert_bundle
          ("spec" ∷ "ols" ∷ "additionalCAConfigMapRef" ∷ "name" ∷ []) b
    d ←
        P.uns.set_nested_field c (str instance.spec.model_name)
          ("spec" ∷ "ols" ∷ "defaultModel" ∷ [])
    e ← P.uns.set_nested_field d (str default_provider) ("spec" ∷ "ols" ∷ "defaultProvider" ∷ [])
    f ← P.uns.set_nested_field e (boolean true) ("spec" ∷ "ols" ∷ "byokRAGOnly" ∷ [])
    g ←
        P.uns.set_nested_field f (boolean instance.spec.feedback_disabled)
          ("spec" ∷ "ols" ∷ "userDataCollection" ∷ "feedbackDisabled" ∷ [])
    h ←
        P.uns.set_nested_field g (boolean instance.spec.transcripts_disabled)
          ("spec" ∷ "ols" ∷ "userDataCollection" ∷ "transcriptsDisabled" ∷ [])
    P.uns.set_nested_field h (str system_prompt) ("spec" ∷ "ols" ∷ "querySystemPrompt" ∷ [])

  unfoldable pub finalizer_added : Fields × Bool → Result Fields
  finalizer_added (config, added) =
      if not added && is_nil instance.status.conditions
      then err (new_error "cannot add finalizer")
      else ok config

  -- `PatchOLSConfig`
  unfoldable pub patch_olsconfig : String → Fields → Result Fields
  unfolding patch_spec updated_labels finalizer_added
  patch_olsconfig system_prompt config = do
    patched ← patch_spec system_prompt config
    labelled ←
        P.uns.set_nested_field patched
          (object (updated_labels instance.meta.uid (P.uns.get_labels patched)))
          ("metadata" ∷ "labels" ∷ [])
    finalizer_added (P.uns.add_finalizer labelled P.finalizer)
