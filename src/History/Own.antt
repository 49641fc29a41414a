-- ===== src/History/Own.antt =====
-- A run keeps the identity of the instance in memory: what it patches is the instance that it got.
use osls_operator.Base.{
  String, ◌≡◌, refl, ap, ◌∙◌, ◌⊎◌, inl, inr, Bool, true, false, Bool-cases, Option, none, some,
  List,
}
use osls_operator.Json.{Fields}
use osls_operator.Api.{OpenStackLightspeed, OpenStackLightspeedDefaults}
use osls_operator.Api.Conditions.{Condition}
use osls_operator.Api.Kubernetes.{ObjectKey, ReconcileResult}
use osls_operator.Platform.{Platform, OperationResult}
use osls_operator.Platform.Exec.{Outcome, returns, fails, panics, Event, World, resume, to_try}
use osls_operator.Platform.Trace.{Extends, same, wrote, Extends-mono}
use osls_operator.OlsConfig.Pinged.{instance-is_olsconfig_ready}
use osls_operator.OlsConfig.Ready.{is_olsconfig_ready}
use osls_operator.OlsInstall.Framed.{instance-ensure}
use osls_operator.OlsInstall.Operator.{ensure_ols_operator_installed}
use osls_operator.History.{identity, PatchesOwn}
use osls_operator.Controller.Delete.{reconcile_delete}
use osls_operator.Controller.Deleting.{reconcile_delete_finalizer}
use osls_operator.Controller.Persist.{with_deferred_persists}
use osls_operator.Controller.Resolving.{PanicsOrRecords, resolve_version_lem}
use osls_operator.Controller.Status.{with_finalizers}
use osls_operator.Controller.Live.{MayWriteLive, reconcile_body_live}
use osls_operator.Controller.Removing.{MayWriteDeleted, reconcile_body_deleted}
use osls_operator.Controller.Version.{resolve_version}
use osls_operator.Controller.Reconcile.{
  after_ready, after_configure, configure_instance, configure, after_ensure, apply_defaults,
  install_and_configure, reconcile_live, dispatch, init_status, reconcile_body, finish,
  with_deferred, reconcile_found, reconcile,
}

abbrev pub OrPatchesOwn : (Event → Type 0) → OpenStackLightspeed → Event → Type 0
OrPatchesOwn Q i e = Q e ⊎ PatchesOwn i e

module _ (P : Platform) (d : OpenStackLightspeedDefaults) where
  abbrev Keeps : World P.State → World P.State → Type 0
  Keeps w v = identity v.instance ≡ identity w.instance

  after_ready-Keeps :
      (o : Outcome Bool) (v : World P.State) → Keeps v (resume (after_ready P d) o v).1
  unfolding after_ready
  after_ready-Keeps (returns true) v = refl
  after_ready-Keeps (returns false) v = refl
  after_ready-Keeps (fails e) v = refl
  after_ready-Keeps panics v = refl

  after_configure-Keeps :
      (o : Outcome (OperationResult × Fields)) (v : World P.State)
      → Keeps v (resume (after_configure P d) (to_try o) v).1
  unfolding after_configure
  after_configure-Keeps (returns x) v =
      after_ready-Keeps (is_olsconfig_ready P v).0 (is_olsconfig_ready P v).1
      ∙ ap identity (instance-is_olsconfig_ready P v)
  after_configure-Keeps (fails e) v = refl
  after_configure-Keeps panics v = refl

  configure-Keeps : (w : World P.State) → Keeps w (configure P d w).1
  unfolding configure configure_instance
  configure-Keeps w = after_configure-Keeps _ _

  after_ensure-Keeps :
      (o : Outcome Bool) (v : World P.State) → Keeps v (resume (after_ensure P d) (to_try o) v).1
  unfolding after_ensure
  after_ensure-Keeps (returns true) v = configure-Keeps v
  after_ensure-Keeps (returns false) v = refl
  after_ensure-Keeps (fails e) v = refl
  after_ensure-Keeps panics v = refl

  install-Keeps : (w : World P.State) → Keeps w (install_and_configure P d w).1
  unfolding install_and_configure apply_defaults
  install-Keeps w =
      let i = apply_defaults P d w.instance in
      let v = record w { instance = i } in
      let r = ensure_ols_operator_installed P i v in
      after_ensure-Keeps r.0 r.1 ∙ ap identity (instance-ensure P i v)

  delete-Keeps : (w : World P.State) → Keeps w (reconcile_delete P w).1
  delete-Keeps w = elim (reconcile_delete_finalizer P w) [
    | inl (_, (_, dropped)) ↦ ap identity dropped
    | inr (_, (_, kept)) ↦ ap identity kept
  ]

  dispatch-Keeps :
      (timestamp : Option String) (w : World P.State) → Keeps w (dispatch P d timestamp w).1
  unfolding dispatch reconcile_live
  dispatch-Keeps (some x) w = delete-Keeps w
  dispatch-Keeps none w =
      elim (Bool-cases (P.add_finalizer w.instance.meta.finalizers P.finalizer).1) [
        | inl added ↦ rw added refl
        | inr there ↦ rw there (
            install-Keeps (record w {
              instance =
                  with_finalizers (P.add_finalizer w.instance.meta.finalizers P.finalizer).0
                    w.instance;
            }))
      ]

  -- The body panics, or keeps the identity.
  abbrev PanicsOrKeeps : World P.State → Outcome ReconcileResult × World P.State → Type 0
  PanicsOrKeeps w b = (b.0 ≡ panics) ⊎ Keeps w b.1

  resolved-PanicsOrKeeps :
      (w : World P.State) (o : Outcome String) (v : World P.State)
      → PanicsOrRecords P w (o, v)
      → PanicsOrKeeps w
          (resume (λ _ (u : World P.State). dispatch P d u.instance.meta.deletion_timestamp u) o v)
  resolved-PanicsOrKeeps w o v (inl (e, t)) = rw e (inl refl)
  resolved-PanicsOrKeeps w o v (inr (version, _, e, _, only)) =
      rw e (inr (dispatch-Keeps v.instance.meta.deletion_timestamp v ∙ ap identity only.2))

  body-PanicsOrKeeps : (w : World P.State) → PanicsOrKeeps w (reconcile_body P d w)
  unfolding reconcile_body
  body-PanicsOrKeeps w =
      let start = record w { instance = init_status P d w.instance } in
      resolved-PanicsOrKeeps start (resolve_version P start).0 (resolve_version P start).1
        (resolve_version_lem P start)

  deferred_writes_own :
      (Q : Event → Type 0) (saved : List Condition) (w : World P.State)
      → Extends Q w.trace (reconcile_body P d w).1.trace
      → Extends
          (OrPatchesOwn Q w.instance)
          w.trace
          (with_deferred P d saved (reconcile_body P d) w).1.trace
  unfolding with_deferred finish
  deferred_writes_own Q saved w h = elim (body-PanicsOrKeeps w) [
    | inl panicked ↦ rw panicked (Extends-mono (λ e q. inl q) h)
    | inr keeps ↦ elim (with_deferred_persists P d saved (reconcile_body P d) w) [
      | inl (_, e) ↦ rw e (Extends-mono (λ e q. inl q) h)
      | inr (e, _) ↦ rw e (wrote _ (inr keeps) (Extends-mono (λ e q. inl q) h))
    ]
  ]

  found_writes_own :
      (Q : Event → Type 0) (o : Outcome (Unit {0})) (v : World P.State)
      → Extends Q v.trace (reconcile_body P d v).1.trace
      → Extends
          (OrPatchesOwn Q v.instance)
          v.trace
          (resume
            (λ _. with_deferred P d v.instance.status.conditions (reconcile_body P d))
            o
            v).1.trace
  found_writes_own Q (returns _) v h = deferred_writes_own Q v.instance.status.conditions v h
  found_writes_own Q (fails e) v h = same
  found_writes_own Q panics v h = same

  -- The world in which the body of a run for this instance starts.
  abbrev begins : World P.State → OpenStackLightspeed → P.State → World P.State
  begins w i s = record { cluster = (P.new_helper i s).1; trace = w.trace; instance = i }

  run_writes_own :
      (Q : Event → Type 0) (w : World P.State) (key : ObjectKey) (i : OpenStackLightspeed)
      (s : P.State)
      → P.get_instance key w.cluster ≡ (returns i, s)
      → Extends Q w.trace (reconcile_body P d (begins w i s)).1.trace
      → Extends (OrPatchesOwn Q i) w.trace (reconcile P d key w).1.trace
  unfolding reconcile reconcile_found
  run_writes_own Q w key i s found h =
      rw found (found_writes_own Q (P.new_helper i s).0 (begins w i s) h)

  pub live_writes_own :
      (w : World P.State) (key : ObjectKey) (i : OpenStackLightspeed) (s : P.State)
      → P.get_instance key w.cluster ≡ (returns i, s)
      → i.meta.deletion_timestamp ≡ none
      → Extends (OrPatchesOwn (MayWriteLive P d i) i) w.trace (reconcile P d key w).1.trace
  live_writes_own w key i s found live =
      run_writes_own (MayWriteLive P d i) w key i s found
        (reconcile_body_live P d (begins w i s) live)

  pub deleted_writes_own :
      (w : World P.State) (key : ObjectKey) (i : OpenStackLightspeed) (s : P.State) (when : String)
      → P.get_instance key w.cluster ≡ (returns i, s)
      → i.meta.deletion_timestamp ≡ some when
      → Extends (OrPatchesOwn (MayWriteDeleted P i) i) w.trace (reconcile P d key w).1.trace
  deleted_writes_own w key i s when found dead =
      run_writes_own (MayWriteDeleted P i) w key i s found
        (reconcile_body_deleted P d (begins w i s) when dead)
