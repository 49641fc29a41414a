-- ===== src/Controller/Ends.antt =====
-- How a run for a live instance ends that asks for no other run.
use osls_operator.Base.{◌≡◌, refl, arith, ◌⊎◌, inl, inr, Bool, true, false, Error}
use osls_operator.Json.{Fields}
use osls_operator.Api.{OpenStackLightspeed, OpenStackLightspeedDefaults}
use osls_operator.Api.Conditions.{
  openstack_lightspeed_ready_condition, openstack_lightspeed_ready_message,
  openshift_lightspeed_operator_ready_condition, openshift_lightspeed_operator_ready,
}
use osls_operator.Platform.{Platform, OperationResult}
use osls_operator.Platform.Exec.{Outcome, returns, fails, panics, World, resume, to_try}
use osls_operator.OlsConfig.Ready.{is_olsconfig_ready}
use osls_operator.OlsInstall.Operator.{ensure_ols_operator_installed}
use osls_operator.Controller.Status.{with_conditions}
use osls_operator.Controller.Delete.{done}
use osls_operator.Controller.Reconcile.{
  after_ready, after_configure, save_olsconfig, configure_instance, configure, after_ensure,
  apply_defaults, install_and_configure,
}

module _ (P : Platform) (d : OpenStackLightspeedDefaults) where
  -- The instance with its Ready condition marked as true.
  abbrev pub marked : OpenStackLightspeed → OpenStackLightspeed
  marked = with_conditions λ cs.
      P.conditions.mark_true cs openstack_lightspeed_ready_condition
        openstack_lightspeed_ready_message

  -- The OLSConfig was ready when the run looked at it in `v`, and the run ends in `u`.
  abbrev pub SawReady : World P.State → World P.State → Type 0
  SawReady v u =
      ((is_olsconfig_ready P v).0 ≡ returns true)
      × (u ≡ record (is_olsconfig_ready P v).1 {
        instance = marked (is_olsconfig_ready P v).1.instance;
      })

  after_ready-done :
      (o : Outcome Bool) (u : World P.State)
      → (resume (after_ready P d) o u).0 ≡ returns done
      → (o ≡ returns true)
        × ((resume (after_ready P d) o u).1 ≡ record u { instance = marked u.instance })
  unfolding after_ready
  after_ready-done (returns true) u h = (refl, refl)
  after_ready-done (returns false) u h = absurd (ground arith)
  after_ready-done (fails e) u h = absurd (ground arith)
  after_ready-done panics u h = absurd (ground arith)

  -- The OLSConfig was saved, and then seen ready.
  abbrev pub SavedAndReady : OpenStackLightspeed → World P.State → World P.State → Type 0
  SavedAndReady i v u =
      (x : OperationResult × Fields) × ((save_olsconfig P d i v).0 ≡ returns x)
      × SawReady (save_olsconfig P d i v).1 u

  after_save-done :
      (o : Outcome (OperationResult × Fields)) (v : World P.State)
      → (resume (after_configure P d) (to_try o) v).0 ≡ returns done
      → (x : OperationResult × Fields) × (o ≡ returns x)
        × SawReady v (resume (after_configure P d) (to_try o) v).1
  unfolding after_configure
  after_save-done (returns x) v h =
      (x, refl, after_ready-done (is_olsconfig_ready P v).0 (is_olsconfig_ready P v).1 h)
  after_save-done (fails e) v h = absurd (ground arith)
  after_save-done panics v h = absurd (ground arith)

  -- The run goes on with the operator marked as ready.
  abbrev pub operator_marked : World P.State → World P.State
  operator_marked v = record v {
    instance =
        with_conditions
          (λ cs.
            P.conditions.mark_true cs openshift_lightspeed_operator_ready_condition
              openshift_lightspeed_operator_ready)
          v.instance;
  }

  configure-done :
      (v : World P.State)
      → (configure P d v).0 ≡ returns done
      → SavedAndReady (operator_marked v).instance (operator_marked v) (configure P d v).1
  unfolding configure configure_instance
  configure-done v h =
      after_save-done (save_olsconfig P d (operator_marked v).instance (operator_marked v)).0
        (save_olsconfig P d (operator_marked v).instance (operator_marked v)).1 h

  -- The installation failed, or it succeeded and the OLSConfig is saved and ready.
  abbrev pub FailedOrReady : Outcome Bool → World P.State → World P.State → Type 0
  FailedOrReady o v u =
      ((e : Error) × (o ≡ fails e))
      ⊎ ((o ≡ returns true) × SavedAndReady (operator_marked v).instance (operator_marked v) u)

  after_ensure-done :
      (o : Outcome Bool) (v : World P.State)
      → (resume (after_ensure P d) (to_try o) v).0 ≡ returns done
      → FailedOrReady o v (resume (after_ensure P d) (to_try o) v).1
  unfolding after_ensure
  after_ensure-done (returns true) v h = inr (refl, configure-done v h)
  after_ensure-done (returns false) v h = absurd (ground arith)
  after_ensure-done (fails e) v h = inl (e, refl)
  after_ensure-done panics v h = absurd (ground arith)

  -- Where a run, past its finalizer, ends without an error and without asking for another run,
  -- the installation of the OLS operator has failed, or it has reported success, the OLSConfig was
  -- saved after it, `IsOLSConfigReady` then reported that it is ready, and the run ends with the
  -- instance marked as ready.
  pub install_and_configure-done :
      (w : World P.State)
      → (install_and_configure P d w).0 ≡ returns done
      → let i = apply_defaults P d w.instance in
        let installed = ensure_ols_operator_installed P i (record w { instance = i }) in
        FailedOrReady installed.0 installed.1 (install_and_configure P d w).1
  unfolding install_and_configure
  install_and_configure-done w h =
      let i = apply_defaults P d w.instance in
      let installed = ensure_ols_operator_installed P i (record w { instance = i }) in
      after_ensure-done installed.0 installed.1 h
