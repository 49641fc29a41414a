-- ===== src/History/Safe.antt =====
-- What the operator never does, over time.
use osls_operator.Base.{String, ◌≡◌, refl, inl, inr, none, some, [], Option-cases}
use osls_operator.Api.{OpenStackLightspeed, OpenStackLightspeedDefaults}
use osls_operator.Api.Kubernetes.{ObjectKey}
use osls_operator.Platform.{Platform}
use osls_operator.Platform.Exec.{Outcome, returns, fails, panics, Event, World}
use osls_operator.Platform.Trace.{Extends, same, Extends-trans, Extends-mono}
use osls_operator.Controller.First.{reconcile_run_absent}
use osls_operator.Controller.Live.{MayWriteLive}
use osls_operator.Controller.Removing.{MayWriteDeleted}
use osls_operator.Controller.Requests.{notify_lem}
use osls_operator.Controller.Reconcile.{reconcile}
use osls_operator.History.Own.{OrPatchesOwn, live_writes_own, deleted_writes_own}
use osls_operator.History.{
  Reached, begun, changed, notified, ran, Got, Allowed, for_live, for_deleted, for_status,
}

module _ (P : Platform) (d : OpenStackLightspeedDefaults) where
  Allowed-mono :
      {G H : OpenStackLightspeed → Type 0}
      → ((i : OpenStackLightspeed) → G i → H i)
      → (e : Event) → Allowed P d G e
      → Allowed P d H e
  Allowed-mono more e (for_live i got live may) = for_live i (more i got) live may
  Allowed-mono more e (for_deleted i when got dead may) = for_deleted i when (more i got) dead may
  Allowed-mono more e (for_status i got patch) = for_status i (more i got) patch

  -- The run for `key` in this cluster got the instance.
  abbrev RunGot : P.State → ObjectKey → OpenStackLightspeed → Type 0
  RunGot s key i = (after : P.State) × (P.get_instance key s ≡ (returns i, after))

  live-Allowed :
      (s : P.State) (key : ObjectKey) (i : OpenStackLightspeed)
      → RunGot s key i
      → i.meta.deletion_timestamp ≡ none
      → (e : Event) → OrPatchesOwn (MayWriteLive P d i) i e
      → Allowed P d (RunGot s key) e
  live-Allowed s key i got live e (inl may) = for_live i got live may
  live-Allowed s key i got live e (inr patch) = for_status i got patch

  deleted-Allowed :
      (s : P.State) (key : ObjectKey) (i : OpenStackLightspeed) (when : String)
      → RunGot s key i
      → i.meta.deletion_timestamp ≡ some when
      → (e : Event) → OrPatchesOwn (MayWriteDeleted P i) i e
      → Allowed P d (RunGot s key) e
  deleted-Allowed s key i when got dead e (inl may) = for_deleted i when got dead may
  deleted-Allowed s key i when got dead e (inr patch) = for_status i got patch

  returned_safe :
      (w : World P.State) (key : ObjectKey) (i : OpenStackLightspeed) (s : P.State)
      → P.get_instance key w.cluster ≡ (returns i, s)
      → Extends (Allowed P d (RunGot w.cluster key)) w.trace (reconcile P d key w).1.trace
  returned_safe w key i s found = elim (Option-cases i.meta.deletion_timestamp) [
    | inl live ↦
        Extends-mono (live-Allowed w.cluster key i (s, found) live)
          (live_writes_own P d w key i s found live)
    | inr (when, dead) ↦
        Extends-mono (deleted-Allowed w.cluster key i when (s, found) dead)
          (deleted_writes_own P d w key i s when found dead)
  ]

  run_panics :
      (w : World P.State) (key : ObjectKey) (s : P.State)
      → P.get_instance key w.cluster ≡ (panics, s)
      → (reconcile P d key w).1.trace ≡ w.trace
  unfolding reconcile
  run_panics w key s e = rw e refl

  answered_safe :
      (w : World P.State) (key : ObjectKey) (o : Outcome OpenStackLightspeed) (s : P.State)
      → P.get_instance key w.cluster ≡ (o, s)
      → Extends (Allowed P d (RunGot w.cluster key)) w.trace (reconcile P d key w).1.trace
  answered_safe w key (returns i) s e = returned_safe w key i s e
  answered_safe w key (fails x) s e =
      let (unchanged, _) = reconcile_run_absent P d w key x s e in rw unchanged same
  answered_safe w key panics s e = rw (run_panics w key s e) same

  -- Whatever others do to the cluster between its runs, every write that the operator has done in
  -- a history belongs to an instance that the API server returned to a run of this history, in the
  -- cluster that the run found: it is the patch of an instance with its namespace, name and UID, or
  -- one to install and configure the OLS operator for it where it was not being deleted, to remove
  -- an OLSConfig and uninstall the OLS operator where it was.
  pub reached_safe :
      (w : World P.State) (h : Reached P d w) → Extends (Allowed P d (Got P d h)) [] w.trace
  reached_safe w (begun s i) = same
  reached_safe w (changed v s h) = reached_safe v h
  reached_safe w (notified v namespace h) = rw ((notify_lem P namespace v).1) (reached_safe v h)
  reached_safe w (ran v key h) =
      Extends-trans (Extends-mono (Allowed-mono (λ i got. inl got)) (reached_safe v h)) (
        Extends-mono (Allowed-mono (λ i got. inr got)) (
          answered_safe v key (P.get_instance key v.cluster).0 (P.get_instance key v.cluster).1
            refl))
