-- ===== src/Controller/Run.antt =====
-- Whole runs of `Reconcile`, for an instance that the API server returns.
use osls_operator.Base.{◌≡◌, refl, ap, ◌∙◌, ◌⊎◌, inl, inr, String, none, some, List}
use osls_operator.Api.{OpenStackLightspeed, OpenStackLightspeedDefaults}
use osls_operator.Api.Conditions.{Condition}
use osls_operator.Api.Kubernetes.{ObjectKey, ReconcileResult}
use osls_operator.Platform.{Platform}
use osls_operator.Platform.Exec.{
  Outcome, returns, fails, panics, Event, World, Exec, resume, patched_instance,
}
use osls_operator.Platform.Trace.{Extends, same, wrote, Extends-mono, Extends-start}
use osls_operator.Controller.Live.{MayWriteLive, reconcile_body_live}
use osls_operator.Controller.Removing.{MayWriteDeleted, reconcile_body_deleted}
use osls_operator.Controller.Persist.{with_deferred_persists}
use osls_operator.Controller.Reconcile.{with_deferred, reconcile_body, reconcile_found, reconcile}

-- The patch of an instance.
abbrev pub Patches : Event → Type 0
Patches (patched_instance i) = Unit
Patches _ = ⊥

-- The call that `Q` allows, or the patch of the instance.
abbrev pub OrPatches : (Event → Type 0) → Event → Type 0
OrPatches Q e = Q e ⊎ Patches e

along :
    (F : OpenStackLightspeed → Event → Type 0) {i j : OpenStackLightspeed} {s t : List Event}
    → i ≡ j
    → Extends (F i) s t
    → Extends (F j) s t
along F e x = rw e at x

module _ (P : Platform) (d : OpenStackLightspeedDefaults) where
  deferred_writes :
      (Q : Event → Type 0) (saved : List Condition) (body : Exec P.State ReconcileResult)
      (w : World P.State)
      → Extends Q w.trace (body w).1.trace
      → Extends (OrPatches Q) w.trace (with_deferred P d saved body w).1.trace
  deferred_writes Q saved body w h = elim (with_deferred_persists P d saved body w) [
    | inl (_, e) ↦ rw e (Extends-mono (λ e q. inl q) h)
    | inr (e, _) ↦ rw e (wrote _ (inr tt) (Extends-mono (λ e q. inl q) h))
  ]

  module _ (Q : Event → Type 0) (i : OpenStackLightspeed)
      (allowed : (v : World P.State)
        → v.instance ≡ i
        → Extends Q v.trace (reconcile_body P d v).1.trace) where
    found_writes :
        (w : World P.State) (o : Outcome (Unit {0})) (v : World P.State)
        → v.trace ≡ w.trace
        → v.instance ≡ i
        → Extends
            (OrPatches Q)
            w.trace
            (resume (λ _. with_deferred P d i.status.conditions (reconcile_body P d)) o v).1.trace
    found_writes w (returns _) v t is =
        Extends-start t
          (deferred_writes Q i.status.conditions (reconcile_body P d) v (allowed v is))
    found_writes w (fails e) v t is = rw t same
    found_writes w panics v t is = rw t same

    pub run_writes :
        (w : World P.State) (key : ObjectKey) (s : P.State)
        → P.get_instance key w.cluster ≡ (returns i, s)
        → Extends (OrPatches Q) w.trace (reconcile P d key w).1.trace
    unfolding reconcile reconcile_found
    run_writes w key s h = rw h (found_writes w (P.new_helper i s).0 _ refl refl)

  -- Where the API server returns an instance that is not being deleted, the run writes to the
  -- cluster, patches of the instance apart, only what installs the OLS operator for it, the
  -- one OLSConfig, and the OLSConfig's ping, whatever the API server answers: it deletes
  -- nothing.
  pub reconcile_run_live :
      (w : World P.State) (key : ObjectKey) (i : OpenStackLightspeed) (s : P.State)
      → P.get_instance key w.cluster ≡ (returns i, s)
      → i.meta.deletion_timestamp ≡ none
      → Extends (OrPatches (MayWriteLive P d i)) w.trace (reconcile P d key w).1.trace
  reconcile_run_live w key i s h live =
      run_writes (MayWriteLive P d i) i
        (λ v is. along (MayWriteLive P d) is (
          reconcile_body_live P d v
            (ap (λ (x : OpenStackLightspeed). x.meta.deletion_timestamp) is ∙ live)))
        w key s h

  -- Where the API server returns an instance that is being deleted, the run writes to the
  -- cluster, patches of the instance apart, only what removes an OLSConfig and what uninstalls
  -- the OLS operator, whatever the API server answers: it installs nothing.
  pub reconcile_run_deleted :
      (w : World P.State) (key : ObjectKey) (i : OpenStackLightspeed) (s : P.State) (when : String)
      → P.get_instance key w.cluster ≡ (returns i, s)
      → i.meta.deletion_timestamp ≡ some when
      → Extends (OrPatches (MayWriteDeleted P i)) w.trace (reconcile P d key w).1.trace
  reconcile_run_deleted w key i s when h dead =
      run_writes (MayWriteDeleted P i) i
        (λ v is. along (MayWriteDeleted P) is (
          reconcile_body_deleted P d v when
            (ap (λ (x : OpenStackLightspeed). x.meta.deletion_timestamp) is ∙ dead)))
        w key s h
