-- ===== src/Readiness/Configure.antt =====
-- When the configuration marks its instance as ready.
use osls_operator.Base.{
  String, ◌≡◌, refl, ap, ◌∙◌, arith, ◌⊎◌, inl, inr, Bool, true, false, List, ◌∷◌,
}
use osls_operator.Json.{Fields}
use osls_operator.Api.{OpenStackLightspeedDefaults}
use osls_operator.Api.Conditions.{
  Condition, openstack_lightspeed_ready_condition, openshift_lightspeed_operator_ready_condition,
}
use osls_operator.Api.Kubernetes.{ReconcileResult}
use osls_operator.Platform.{Platform, OperationResult}
use osls_operator.Platform.Exec.{Outcome, returns, fails, panics, World, resume, to_try}
use osls_operator.Platform.Kinds.{Kind, kinds, patch_config}
use osls_operator.OlsConfig.Ready.{is_olsconfig_ready}
use osls_operator.OlsConfig.Pinged.{is_olsconfig_ready_trace, instance-is_olsconfig_ready}
use osls_operator.Controller.Delete.{done}
use osls_operator.Controller.Ends.{operator_marked}
use osls_operator.Controller.Reconcile.{
  after_ready, after_configure, save_olsconfig, configure_instance, configure,
}
use osls_operator.Readiness.Laws.{IsLawful, Unready, UnreadyWorld}
use osls_operator.Readiness.Kept.{mark_true-Unready}

module _ (P : Platform) (d : OpenStackLightspeedDefaults) (laws : IsLawful P.conditions) where
  -- The instance is not ready, or the run is done after these writes.
  abbrev pub UnreadyOrDone : List Kind → Outcome ReconcileResult × World P.State → Type 0
  UnreadyOrDone writes r = UnreadyWorld P r.1 ⊎ ((r.0 ≡ returns done) × (kinds r.1.trace ≡ writes))

  after_ready_lem :
      (writes : List Kind) (o : Outcome Bool) (v : World P.State)
      → UnreadyWorld P v
      → (o ≡ returns true → kinds v.trace ≡ writes)
      → UnreadyOrDone writes (resume (after_ready P d) o v)
  unfolding after_ready
  after_ready_lem writes (returns true) v u e = inr (refl, e refl)
  after_ready_lem writes (returns false) v u e = inl u
  after_ready_lem writes (fails x) v u e = inl u
  after_ready_lem writes panics v u e = inl u

  ready_keeps :
      (v : World P.State)
      → (is_olsconfig_ready P v).0 ≡ returns true
      → (is_olsconfig_ready P v).1.trace ≡ v.trace
  ready_keeps v e = ground (arith, is_olsconfig_ready_trace P v)

  set_error-Unready :
      (cs : List Condition) (reason severity message : String)
      → Unready P (
          P.conditions.set cs (
            P.conditions.false_condition openstack_lightspeed_ready_condition reason severity
              message))
  set_error-Unready cs reason severity message =
      laws.is_true-set cs _ openstack_lightspeed_ready_condition
      ∙ rw (laws.type-false_condition openstack_lightspeed_ready_condition reason severity message)
          (laws.status-false_condition openstack_lightspeed_ready_condition reason severity message)

  after_save_lem :
      (writes : List Kind) (o : Outcome (OperationResult × Fields)) (v : World P.State)
      → UnreadyWorld P v
      → kinds v.trace ≡ writes
      → UnreadyOrDone writes (resume (after_configure P d) (to_try o) v)
  unfolding after_configure
  after_save_lem writes (returns x) v u e =
      let q = is_olsconfig_ready P v in
      after_ready_lem writes q.0 q.1 (rw (instance-is_olsconfig_ready P v) u)
        λ ready. ap kinds (ready_keeps v ready) ∙ e
  after_save_lem writes (fails x) v u e = inl (set_error-Unready _ _ _ _)
  after_save_lem writes panics v u e = inl u

  pub configure_lem :
      (writes : List Kind) (v : World P.State)
      → UnreadyWorld P v
      → kinds v.trace ≡ writes
      → UnreadyOrDone (patch_config ∷ writes) (configure P d v)
  unfolding configure configure_instance
  configure_lem writes v u e =
      let saved = save_olsconfig P d (operator_marked P d v).instance (operator_marked P d v) in
      after_save_lem (patch_config ∷ writes) saved.0 saved.1
        (mark_true-Unready P laws v.instance.status.conditions
          openshift_lightspeed_operator_ready_condition _ refl u)
        (ap (λ t. patch_config ∷ t) e)
