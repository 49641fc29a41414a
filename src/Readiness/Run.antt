-- ===== src/Readiness/Run.antt =====
-- When a run, past the version of its cluster, marks its instance as ready.
use osls_operator.Base.{
  String, ◌≡◌, refl, arith, ◌⊎◌, inl, inr, Bool, true, false, Bool-cases, Option, none, some, List,
  ◌∷◌,
}
use osls_operator.Api.{OpenStackLightspeed, OpenStackLightspeedDefaults}
use osls_operator.Api.Kubernetes.{ReconcileResult}
use osls_operator.Platform.{Platform}
use osls_operator.Platform.Exec.{Outcome, returns, fails, panics, World, resume, to_try}
use osls_operator.Platform.Kinds.{
  Kind, kinds, save_subscription, update_csv, update_plan, patch_config,
}
use osls_operator.OlsInstall.Operator.{ensure_ols_operator_installed}
use osls_operator.OlsInstall.Order.{ensure_order}
use osls_operator.OlsInstall.Framed.{instance-ensure}
use osls_operator.Controller.Status.{with_finalizers}
use osls_operator.Controller.Delete.{done, reconcile_delete}
use osls_operator.Controller.Deleting.{reconcile_delete_finalizer}
use osls_operator.Controller.Reconcile.{
  after_ensure, apply_defaults, install_and_configure, reconcile_live, dispatch,
}
use osls_operator.Readiness.Laws.{IsLawful, UnreadyWorld}
use osls_operator.Readiness.Configure.{UnreadyOrDone, configure_lem}
use osls_operator.Readiness.Kept.{set-Unready}

module _ (P : Platform) (d : OpenStackLightspeedDefaults) (laws : IsLawful P.conditions) where
  -- The writes of an installation that reports success.
  ensure_writes :
      (i : OpenStackLightspeed) (w : World P.State)
      → (ensure_ols_operator_installed P i w).0 ≡ returns true
      → kinds (ensure_ols_operator_installed P i w).1.trace
        ≡ update_csv ∷ update_plan ∷ save_subscription ∷ kinds w.trace
  ensure_writes i w e = ground (arith, ensure_order P i w)

  abbrev pub live_writes : List Kind → List Kind
  live_writes before = patch_config ∷ update_csv ∷ update_plan ∷ save_subscription ∷ before

  after_ensure_lem :
      (writes : List Kind) (o : Outcome Bool) (v : World P.State)
      → UnreadyWorld P v
      → (o ≡ returns true → kinds v.trace ≡ writes)
      → UnreadyOrDone P d laws (patch_config ∷ writes) (resume (after_ensure P d) (to_try o) v)
  unfolding after_ensure
  after_ensure_lem writes (returns true) v u e = configure_lem P d laws writes v u (e refl)
  after_ensure_lem writes (returns false) v u e =
      inl (set-Unready P laws _ _ (rw (laws.type-false_condition _ _ _ _) refl) u)
  after_ensure_lem writes (fails x) v u e =
      inl (set-Unready P laws _ _ (rw (laws.type-false_condition _ _ _ _) refl) u)
  after_ensure_lem writes panics v u e = inl u

  install_lem :
      (w : World P.State)
      → UnreadyWorld P w
      → UnreadyOrDone P d laws (live_writes (kinds w.trace)) (install_and_configure P d w)
  unfolding install_and_configure apply_defaults
  install_lem w u =
      let i = apply_defaults P d w.instance in
      let v = record w { instance = i } in
      let installed = ensure_ols_operator_installed P i v in
      after_ensure_lem (update_csv ∷ update_plan ∷ save_subscription ∷ kinds w.trace) installed.0
        installed.1 (rw (instance-ensure P i v) u) (ensure_writes i v)

  -- As before, for an instance that is not being deleted.
  abbrev pub UnreadyOrLive :
      List Kind → Option String → Outcome ReconcileResult × World P.State → Type 0
  UnreadyOrLive before timestamp r =
      UnreadyWorld P r.1
      ⊎ ((timestamp ≡ none) × (r.0 ≡ returns done) × (kinds r.1.trace ≡ live_writes before))

  delete_Unready : (w : World P.State) → UnreadyWorld P w → UnreadyWorld P (reconcile_delete P w).1
  delete_Unready w u = elim (reconcile_delete_finalizer P w) [
    | inl (_, (_, dropped)) ↦ rw dropped u
    | inr (_, (_, same)) ↦ rw same u
  ]

  pub dispatch_lem :
      (timestamp : Option String) (w : World P.State)
      → UnreadyWorld P w
      → UnreadyOrLive (kinds w.trace) timestamp (dispatch P d timestamp w)
  unfolding dispatch reconcile_live
  dispatch_lem (some x) w u = inl (delete_Unready w u)
  dispatch_lem none w u =
      let (fs, added) = P.add_finalizer w.instance.meta.finalizers P.finalizer in
      elim (Bool-cases added) [
        | inl e ↦ rw e (inl u)
        | inr e ↦
            rw e (elim (install_lem (record w { instance = with_finalizers fs w.instance }) u) [
              | inl unready ↦ inl unready
              | inr (finished, writes) ↦ inr (refl, finished, writes)
            ])
      ]
