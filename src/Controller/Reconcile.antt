-- ===== src/Controller/Reconcile.antt =====
-- openstacklightspeed_controller.go: `Reconcile`
use osls_operator.Base.{
  String, Bool, true, false, not, ◌&&◌, ◌==◌, Option, none, some, List, [], ◌∷◌, Result, ok, err,
  is_not_found, new_error, if◌then◌else◌,
}
use osls_operator.Base.Int.{pos, is_zero}
use osls_operator.Json.{Fields, end}
use osls_operator.Api.{OpenStackLightspeed, OpenStackLightspeedDefaults}
use osls_operator.Api.Conditions.{
  Condition, openstack_lightspeed_ready_condition, openstack_lightspeed_ready_init_message,
  openstack_lightspeed_ready_message, openshift_lightspeed_operator_ready_condition,
  openshift_lightspeed_operator_ready, openshift_lightspeed_operator_waiting,
}
use osls_operator.Api.Kubernetes.{ObjectKey, ReconcileResult}
use osls_operator.SystemPrompt.{get_system_prompt}
use osls_operator.Platform.{Platform, OperationResult}
use osls_operator.Platform.Exec.{
  Outcome, returns, fails, panics, World, Exec, ◌>>=◌, ◌>>◌, pure, fail, of_result, call, write,
  try, get_instance, modify_instance, patched_olsconfig, patched_instance,
}
use osls_operator.OlsConfig.Labels.{label, owner_id_label}
use osls_operator.OlsConfig.Patch.{patch_olsconfig}
use osls_operator.OlsConfig.Ready.{is_olsconfig_ready}
use osls_operator.OlsInstall.Operator.{ensure_ols_operator_installed}
use osls_operator.Controller.Status.{with_conditions, with_finalizers, set_condition, mark_true}
use osls_operator.Controller.Version.{resolve_version}
use osls_operator.Controller.Delete.{done, retry_after, reconcile_delete}

-- `OLSConfigName`
abbrev pub olsconfig_name : String
olsconfig_name = "cluster"

module _ (P : Platform) (defaults : OpenStackLightspeedDefaults) where
  -- `olsConfig` before `CreateOrPatch`
  abbrev pub new_olsconfig : Fields
  new_olsconfig =
      P.uns.set_name (P.uns.set_group_version_kind end "ols.openshift.io" "v1alpha1" "OLSConfig")
        olsconfig_name

  -- The mutate function that `Reconcile` hands to `CreateOrPatch`, given the owner's label.
  unfoldable pub mutate_labelled : OpenStackLightspeed → String → Fields → Outcome Fields
  mutate_labelled instance owner_label config =
      if not (owner_label == "") && not (owner_label == instance.meta.uid)
      then fails (new_error "OLSConfig is managed by different OpenStackLightspeed instance")
      else of_result (patch_olsconfig P instance get_system_prompt config)

  unfoldable pub mutate_olsconfig : OpenStackLightspeed → Fields → Outcome Fields
  unfolding mutate_labelled label
  mutate_olsconfig instance config =
      mutate_labelled instance (label owner_id_label (P.uns.get_labels config)) config

  unfoldable pub after_ready : Bool → Exec P.State ReconcileResult
  after_ready true = do
    mark_true P openstack_lightspeed_ready_condition openstack_lightspeed_ready_message
    pure done
  after_ready false = pure (retry_after (pos 5))

  unfoldable pub after_configure : Result (OperationResult × Fields) → Exec P.State ReconcileResult
  unfolding after_ready
  after_configure (err e) = do
    set_condition P (
        P.conditions.false_condition openstack_lightspeed_ready_condition P.conditions.error_reason
          P.conditions.severity_warning (P.conditions.deployment_ready_error_message e.message))
    fail e
  after_configure (ok _) = do ready ← is_olsconfig_ready P; after_ready ready

  abbrev pub save_olsconfig : OpenStackLightspeed → Exec P.State (OperationResult × Fields)
  save_olsconfig instance =
      write (patched_olsconfig new_olsconfig)
        (P.create_or_patch_olsconfig new_olsconfig (mutate_olsconfig instance))

  unfoldable pub configure_instance : OpenStackLightspeed → Exec P.State ReconcileResult
  unfolding after_configure
  configure_instance instance = do answer ← try (save_olsconfig instance); after_configure answer

  -- `Reconcile`, once the OLS operator is installed
  unfoldable pub configure : Exec P.State ReconcileResult
  unfolding configure_instance
  configure = do
    mark_true P openshift_lightspeed_operator_ready_condition openshift_lightspeed_operator_ready
    instance ← get_instance
    configure_instance instance

  unfoldable pub after_ensure : Result Bool → Exec P.State ReconcileResult
  unfolding configure
  after_ensure (err e) = do
    set_condition P (
        P.conditions.false_condition openshift_lightspeed_operator_ready_condition
          P.conditions.error_reason P.conditions.severity_warning
          (P.conditions.deployment_ready_error_message e.message))
    pure done
  after_ensure (ok false) = do
    set_condition P (
        P.conditions.false_condition openshift_lightspeed_operator_ready_condition
          P.conditions.requested_reason P.conditions.severity_info
          openshift_lightspeed_operator_waiting)
    pure (record { requeue = true; requeue_after = pos 10 })
  after_ensure (ok true) = configure

  -- The defaults for the fields that the user left empty.
  unfoldable pub apply_defaults : OpenStackLightspeed → OpenStackLightspeed
  apply_defaults i =
      let image = if i.spec.rag_image == "" then defaults.rag_image_url else i.spec.rag_image in
      let tokens =
        if is_zero i.spec.core.max_tokens_for_response
        then defaults.max_tokens_for_response
        else i.spec.core.max_tokens_for_response in
      record i {
        spec = record i.spec {
          rag_image = image;
          core = record i.spec.core { max_tokens_for_response = tokens };
        };
      }

  unfoldable pub install_and_configure : Exec P.State ReconcileResult
  unfolding apply_defaults after_ensure
  install_and_configure = do
    modify_instance apply_defaults
    instance ← get_instance
    answer ← try (ensure_ols_operator_installed P instance)
    after_ensure answer

  -- The finalizer is added first; the patch on exit saves it, and a later run goes on.
  unfoldable pub reconcile_live : Exec P.State ReconcileResult
  unfolding install_and_configure
  reconcile_live = do
    instance ← get_instance
    let (finalizers, added) = P.add_finalizer instance.meta.finalizers P.finalizer
    modify_instance (with_finalizers finalizers)
    if added then pure done else install_and_configure

  unfoldable pub dispatch : Option String → Exec P.State ReconcileResult
  unfolding reconcile_live
  dispatch (some _) = reconcile_delete P
  dispatch none = reconcile_live

  abbrev pub init_status : OpenStackLightspeed → OpenStackLightspeed
  init_status i =
      let initial = P.conditions.create_list (
        P.conditions.unknown_condition openstack_lightspeed_ready_condition P.conditions.init_reason
          openstack_lightspeed_ready_init_message
        ∷ []) in
      record i {
        status = record i.status {
          conditions = P.conditions.init i.status.conditions initial;
          observed_generation = i.meta.generation;
        };
      }

  -- `Reconcile` from the `defer` statement to its end
  unfoldable pub reconcile_body : Exec P.State ReconcileResult
  unfolding dispatch
  reconcile_body = do
    modify_instance init_status
    resolve_version P
    instance ← get_instance
    dispatch instance.meta.deletion_timestamp

  -- The Ready condition, from the others.
  unfoldable pub summarize : List Condition → List Condition
  summarize cs =
      let C = P.conditions in
      let unknown = C.mark_unknown cs C.ready_condition C.init_reason C.ready_init_message in
      if C.all_sub_condition_is_true cs
      then C.mark_true cs C.ready_condition C.ready_message
      else C.set unknown (C.mirror unknown C.ready_condition)

  -- The deferred function, where the reconciler did not panic; what the patch returns is dropped.
  unfoldable pub save_status : List Condition → Exec P.State (Unit {0})
  unfolding summarize
  save_status saved = do
    modify_instance
        (with_conditions λ cs. summarize (P.conditions.restore_last_transition_times cs saved))
    instance ← get_instance
    try (write (patched_instance instance) (P.patch_instance instance))
    pure tt

  -- How the body ended, and then the deferred function.
  unfoldable pub finish :
      List Condition
      → Outcome ReconcileResult
      → World P.State
      → Outcome ReconcileResult × World P.State
  unfolding save_status
  finish saved panics w = (panics, w)
  finish saved (returns r) w = (save_status saved >>= λ _. pure r) w
  finish saved (fails e) w = (save_status saved >>= λ _. fail e) w

  unfoldable pub with_deferred :
      List Condition → Exec P.State ReconcileResult → Exec P.State ReconcileResult
  unfolding finish
  with_deferred saved body w = finish saved (body w).0 (body w).1

  unfoldable pub reconcile_found : Result OpenStackLightspeed → Exec P.State ReconcileResult
  unfolding with_deferred reconcile_body
  reconcile_found (err e) = if is_not_found e then pure done else fail e
  reconcile_found (ok instance) = do
    modify_instance (λ _. instance)
    call (P.new_helper instance)
    with_deferred instance.status.conditions reconcile_body

  -- `Reconcile`
  unfoldable pub reconcile : ObjectKey → Exec P.State ReconcileResult
  unfolding reconcile_found
  reconcile key = do answer ← try (call (P.get_instance key)); reconcile_found answer
