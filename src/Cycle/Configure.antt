-- ===== src/Cycle/Configure.antt =====
-- Saving the OLSConfig and looking at it, in `Reconcile`, is a step of the state machine.
use osls_operator.Base.{◌≡◌, refl, arith, ◌⊎◌, ◌≢◌, inl, inr, Bool, true, false, List, ◌∷◌}
use osls_operator.Json.{Fields}
use osls_operator.Api.{OpenStackLightspeedDefaults}
use osls_operator.Platform.{Platform, OperationResult}
use osls_operator.Platform.Exec.{World, Outcome, returns, fails, panics, resume, to_try}
use osls_operator.Platform.Kinds.{Kind, kinds, patch_config, update_config}
use osls_operator.OlsConfig.Ready.{is_olsconfig_ready}
use osls_operator.OlsConfig.Pinged.{is_olsconfig_ready_trace}
use osls_operator.Controller.Ends.{operator_marked}
use osls_operator.Controller.Reconcile.{
  after_ready, after_configure, save_olsconfig, configure_instance, configure,
}
use osls_operator.Cycle.{Configures, not_known, not_pinged, pinged, ready}

module _ (P : Platform) (d : OpenStackLightspeedDefaults) where
  -- What `IsOLSConfigReady` has written, by what it returns, with the patch before it.
  abbrev Looked : List Kind → Outcome Bool → World P.State → Type 0
  Looked before o v =
      ((o ≡ returns true) × (kinds v.trace ≡ patch_config ∷ before))
      ⊎ (((o ≢ returns true) × (kinds v.trace ≡ update_config ∷ patch_config ∷ before))
          ⊎ ((o ≢ returns true) × (o ≢ returns false) × (kinds v.trace ≡ patch_config ∷ before)))

  Looked-ready :
      (before : List Kind) (w : World P.State)
      → kinds w.trace ≡ patch_config ∷ before
      → Looked before (is_olsconfig_ready P w).0 (is_olsconfig_ready P w).1
  Looked-ready before w e = ground (arith, is_olsconfig_ready_trace P w)

  after_ready_refines :
      (before : List Kind) (o : Outcome Bool) (v : World P.State)
      → Looked before o v
      → let r = resume (after_ready P d) o v in Configures before (kinds r.1.trace) r.0
  unfolding after_ready
  after_ready_refines before (returns true) v (inl (_, e)) = rw e ready
  after_ready_refines before (returns true) v (inr (inl (h, _))) = absurd (h refl)
  after_ready_refines before (returns true) v (inr (inr (h, _, _))) = absurd (h refl)
  after_ready_refines before (returns false) v (inl (h, _)) = absurd (ground arith)
  after_ready_refines before (returns false) v (inr (inl (_, e))) = rw e pinged
  after_ready_refines before (returns false) v (inr (inr (_, h, _))) = absurd (h refl)
  after_ready_refines before (fails x) v (inl (h, _)) = absurd (ground arith)
  after_ready_refines before (fails x) v (inr (inl (_, e))) = rw e (not_pinged tt)
  after_ready_refines before (fails x) v (inr (inr (_, _, e))) = rw e (not_known tt)
  after_ready_refines before panics v (inl (h, _)) = absurd (ground arith)
  after_ready_refines before panics v (inr (inl (_, e))) = rw e (not_pinged tt)
  after_ready_refines before panics v (inr (inr (_, _, e))) = rw e (not_known tt)

  after_save_refines :
      (before : List Kind) (o : Outcome (OperationResult × Fields)) (v : World P.State)
      → kinds v.trace ≡ patch_config ∷ before
      → let r = resume (after_configure P d) (to_try o) v in Configures before (kinds r.1.trace) r.0
  unfolding after_configure
  after_save_refines before (returns x) v e =
      after_ready_refines before (is_olsconfig_ready P v).0 (is_olsconfig_ready P v).1
        (Looked-ready before v e)
  after_save_refines before (fails x) v e = rw e (not_known tt)
  after_save_refines before panics v e = rw e (not_known tt)

  -- Once the OLS operator is installed, `Reconcile` writes and ends as the configuration may.
  pub configure_refines :
      (w : World P.State)
      → let r = configure P d w in Configures (kinds w.trace) (kinds r.1.trace) r.0
  unfolding configure configure_instance
  configure_refines w =
      let saved = save_olsconfig P d (operator_marked P d w).instance (operator_marked P d w) in
      after_save_refines (kinds w.trace) saved.0 saved.1 refl
