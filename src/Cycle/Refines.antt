-- ===== src/Cycle/Refines.antt =====
-- `Reconcile` is a run of the state machine.
use osls_operator.Base.{
  ◌≡◌, refl, ap, subst, arith, ◌⊎◌, inl, inr, String, Bool, true, false, Bool-cases, Option, none,
  some, List, ◌∷◌, Error,
}
use osls_operator.Api.{OpenStackLightspeed, OpenStackLightspeedDefaults}
use osls_operator.Api.Conditions.{Condition}
use osls_operator.Api.Kubernetes.{ObjectKey, ReconcileResult}
use osls_operator.Platform.{Platform}
use osls_operator.Platform.Exec.{World, Outcome, returns, fails, panics, resume, to_try}
use osls_operator.Platform.Kinds.{Kind, kinds, patch_status}
use osls_operator.OlsConfig.Remove.{remove_olsconfig}
use osls_operator.OlsInstall.Operator.{
  ensure_ols_operator_installed, uninstall_instance_owned_ols_operator,
}
use osls_operator.Controller.Status.{with_finalizers}
use osls_operator.Controller.Version.{resolve_version}
use osls_operator.Controller.Delete.{after_uninstall, after_remove, reconcile_delete}
use osls_operator.Controller.Resolving.{PanicsOrRecords, resolve_version_lem}
use osls_operator.Controller.Reconcile.{
  after_ensure, apply_defaults, install_and_configure, reconcile_live, dispatch, init_status,
  reconcile_body, finish, save_status, with_deferred, reconcile_found, reconcile,
}
use osls_operator.Cycle.{
  failing, panicking, Installs, Removes, Uninstalls, Keeps, finalizer_added, install_failed,
  install_panicked, installing, configured, Deletes, removal_broken, removing, uninstall_broken,
  uninstalling, gone, Handles, Runs, no_helper, no_version, panicked, returned, failed,
  patch_panicked,
}
use osls_operator.Cycle.Install.{ensure_refines}
use osls_operator.Cycle.Remove.{remove_refines, uninstall_refines}
use osls_operator.Cycle.Configure.{configure_refines}

module _ (P : Platform) (i : OpenStackLightspeed) (before : List Kind) where
  after_uninstall_refines :
      (between : List Kind) (o : Outcome Bool) (v : World P.State)
      → Removes before between (returns true)
      → Uninstalls between (kinds v.trace) o
      → let r = resume (after_uninstall P) o v in Deletes before (kinds r.1.trace) r.0
  unfolding after_uninstall
  after_uninstall_refines between (returns true) v a b = gone a b
  after_uninstall_refines between (returns false) v a b = uninstalling a b
  after_uninstall_refines between (fails e) v a b = uninstall_broken a b (failing e)
  after_uninstall_refines between panics v a b = uninstall_broken a b panicking

  after_remove_refines :
      (o : Outcome Bool) (v : World P.State)
      → Removes before (kinds v.trace) o
      → let r = resume (after_remove P i) o v in Deletes before (kinds r.1.trace) r.0
  unfolding after_remove
  after_remove_refines (returns true) v a =
      let uninstalled = uninstall_instance_owned_ols_operator P i v in
      after_uninstall_refines (kinds v.trace) uninstalled.0 uninstalled.1 a
        (uninstall_refines P i v)
  after_remove_refines (returns false) v a = removing a
  after_remove_refines (fails e) v a = removal_broken a (failing e)
  after_remove_refines panics v a = removal_broken a panicking

module _ (P : Platform) (d : OpenStackLightspeedDefaults) where
  after_ensure_refines :
      (before : List Kind) (o : Outcome Bool) (v : World P.State)
      → Installs before (kinds v.trace) o
      → let r = resume (after_ensure P d) (to_try o) v in Keeps before (kinds r.1.trace) r.0
  unfolding after_ensure
  after_ensure_refines before (returns true) v a = configured a (configure_refines P d v)
  after_ensure_refines before (returns false) v a = installing a
  after_ensure_refines before (fails e) v a = install_failed e a
  after_ensure_refines before panics v a = install_panicked a

  install_and_configure_refines :
      (w : World P.State)
      → let r = install_and_configure P d w in Keeps (kinds w.trace) (kinds r.1.trace) r.0
  unfolding install_and_configure
  install_and_configure_refines w =
      let i = apply_defaults P d w.instance in
      let installed = ensure_ols_operator_installed P i (record w { instance = i }) in
      after_ensure_refines (kinds w.trace) installed.0 installed.1
        (ensure_refines P i (record w { instance = i }))

  dispatch_refines :
      (timestamp : Option String) (w : World P.State)
      → let r = dispatch P d timestamp w in Handles (kinds w.trace) timestamp (kinds r.1.trace) r.0
  unfolding dispatch reconcile_live reconcile_delete
  dispatch_refines none w =
      let (fs, added) = P.add_finalizer w.instance.meta.finalizers P.finalizer in
      elim (Bool-cases added) [
        | inl e ↦ rw e finalizer_added
        | inr e ↦
            rw e (
              install_and_configure_refines (record w { instance = with_finalizers fs w.instance }))
      ]
  dispatch_refines (some _) w =
      let removed = remove_olsconfig P w.instance w in
      after_remove_refines P w.instance (kinds w.trace) removed.0 removed.1
        (remove_refines P w.instance w)

  -- A body that panics before it looks at the deletion timestamp has written nothing.
  abbrev PanicsOrHandles : List Kind → Option String → List Kind → Outcome ReconcileResult → Type 0
  PanicsOrHandles before timestamp after o =
      ((o ≡ panics) × (after ≡ before)) ⊎ Handles before timestamp after o

  after_resolve_refines :
      (w : World P.State) (o : Outcome String) (v : World P.State)
      → PanicsOrRecords P w (o, v)
      → let r =
          resume (λ _ (u : World P.State). dispatch P d u.instance.meta.deletion_timestamp u) o v in
        PanicsOrHandles (kinds w.trace) w.instance.meta.deletion_timestamp (kinds r.1.trace) r.0
  after_resolve_refines w o v (inl (e, t)) = rw e (inl (refl, ap kinds t))
  after_resolve_refines w o v (inr (version, _, e, _, (t, status, is))) = rw e (
      inr (
        let r = dispatch P d v.instance.meta.deletion_timestamp v in
        subst (λ ks. Handles ks w.instance.meta.deletion_timestamp (kinds r.1.trace) r.0)
          (ap kinds t)
          (subst
            (λ (x : OpenStackLightspeed).
              Handles (kinds v.trace) x.meta.deletion_timestamp (kinds r.1.trace) r.0)
            is (dispatch_refines v.instance.meta.deletion_timestamp v))))

  reconcile_body_refines :
      (w : World P.State)
      → let r = reconcile_body P d w in
        PanicsOrHandles (kinds w.trace) w.instance.meta.deletion_timestamp (kinds r.1.trace) r.0
  unfolding reconcile_body
  reconcile_body_refines w =
      let start = record w { instance = init_status P d w.instance } in
      after_resolve_refines start (resolve_version P start).0 (resolve_version P start).1
        (resolve_version_lem P start)

  -- The instance is patched, and the reconciler returns what the body returned or panics.
  abbrev Patched :
      Outcome ReconcileResult → World P.State → Outcome ReconcileResult × World P.State → Type 0
  Patched o v r = (kinds r.1.trace ≡ patch_status ∷ kinds v.trace) × ((r.0 ≡ o) ⊎ (r.0 ≡ panics))

  finish_returns :
      (saved : List Condition) (x : ReconcileResult) (v : World P.State)
      → Patched (returns x) v (finish P d saved (returns x) v)
  unfolding finish save_status
  finish_returns saved x v = ground arith

  finish_fails :
      (saved : List Condition) (e : Error) (v : World P.State)
      → Patched (fails e) v (finish P d saved (fails e) v)
  unfolding finish save_status
  finish_fails saved e v = ground arith

  finish_refines :
      (before : List Kind) (timestamp : Option String) (saved : List Condition)
      (o : Outcome ReconcileResult) (v : World P.State)
      → PanicsOrHandles before timestamp (kinds v.trace) o
      → let r = finish P d saved o v in Runs before timestamp (kinds r.1.trace) r.0
  unfolding finish
  finish_refines before timestamp saved panics v (inl (_, e)) = rw e no_version
  finish_refines before timestamp saved panics v (inr h) = panicked h
  finish_refines before timestamp saved (returns x) v (inl (h, _)) = absurd (ground arith)
  finish_refines before timestamp saved (returns x) v (inr h) =
      let (t, how) = finish_returns saved x v in
      elim how [
        | inl e ↦ rw e (rw t (returned x h))
        | inr e ↦ rw e (rw t (patch_panicked (returns x) h))
      ]
  finish_refines before timestamp saved (fails x) v (inl (h, _)) = absurd (ground arith)
  finish_refines before timestamp saved (fails x) v (inr h) =
      let (t, how) = finish_fails saved x v in
      elim how [
        | inl e ↦ rw e (rw t (failed x h))
        | inr e ↦ rw e (rw t (patch_panicked (fails x) h))
      ]

  helper_refines :
      (i : OpenStackLightspeed) (o : Outcome (Unit {0})) (v : World P.State)
      → v.instance ≡ i
      → let r = resume (λ _. with_deferred P d i.status.conditions (reconcile_body P d)) o v in
        Runs (kinds v.trace) i.meta.deletion_timestamp (kinds r.1.trace) r.0
  unfolding with_deferred
  helper_refines i (returns _) v e =
      let body = reconcile_body P d v in
      finish_refines (kinds v.trace) i.meta.deletion_timestamp i.status.conditions body.0 body.1 (
        subst
          (λ (x : OpenStackLightspeed).
            PanicsOrHandles (kinds v.trace) x.meta.deletion_timestamp (kinds body.1.trace) body.0)
          e (reconcile_body_refines v))
  helper_refines i (fails x) v e = no_helper tt
  helper_refines i panics v e = no_helper tt

  -- Where the API server returns an instance, the run is a run of the state machine, whatever the
  -- calls to the cluster answer: it writes as the machine may for the instance's deletion
  -- timestamp, its last write is the patch of the instance unless it panics or cannot begin, and
  -- it ends as the machine may.
  pub reconcile_refines :
      (w : World P.State) (key : ObjectKey) (i : OpenStackLightspeed) (s : P.State)
      → P.get_instance key w.cluster ≡ (returns i, s)
      → let r = reconcile P d key w in
        Runs (kinds w.trace) i.meta.deletion_timestamp (kinds r.1.trace) r.0
  unfolding reconcile reconcile_found
  reconcile_refines w key i s h = rw h (helper_refines i (P.new_helper i s).0 _ refl)
