-- ===== src/Controller/First.antt =====
-- The first run for an instance, and a run for one that cannot be had.
use osls_operator.Base.{
  ◌≡◌, refl, ap, subst, ◌∙◌, arith, ◌⊎◌, inl, inr, String, true, false, Bool-cases, Option, none,
  some, List, ◌∷◌, Error, is_not_found,
}
use osls_operator.Api.{OpenStackLightspeed, OpenStackLightspeedDefaults}
use osls_operator.Api.Kubernetes.{ObjectMeta, ObjectKey, ReconcileResult}
use osls_operator.Platform.{Platform}
use osls_operator.Platform.Exec.{Outcome, returns, fails, panics, World, resume, patched_instance}
use osls_operator.Api.Conditions.{Condition}
use osls_operator.Controller.Persist.{summarized}
use osls_operator.Controller.Delete.{done}
use osls_operator.Controller.Resolving.{PanicsOrRecords, resolve_version_lem}
use osls_operator.Controller.Version.{resolve_version}
use osls_operator.Controller.Reconcile.{
  dispatch, reconcile_live, init_status, reconcile_body, save_status, finish, with_deferred,
  reconcile_found, reconcile,
}

module _ (P : Platform) (d : OpenStackLightspeedDefaults) where
  -- The metadata of an instance with the operator's finalizer added.
  abbrev pub guarded : ObjectMeta → ObjectMeta
  guarded meta = record meta { finalizers = (P.add_finalizer meta.finalizers P.finalizer).0 }

  -- What the run does with the version, once its status is initialized.
  abbrev pub versioned : World P.State → Outcome String × World P.State
  versioned w = resolve_version P (record w { instance = init_status P d w.instance })

  -- The body is done, with the finalizer in the instance in memory, unless the version panics; it
  -- writes nothing.
  abbrev Guards :
      World P.State
      → Outcome String × World P.State
      → Outcome ReconcileResult × World P.State
      → Type 0
  Guards w q b =
      (b.1.trace ≡ w.trace)
      × (((q.0 ≡ panics) × (b.0 ≡ panics))
          ⊎ ((b.0 ≡ returns done)
              × (b.1.instance.meta ≡ guarded w.instance.meta)
              × (b.1.instance.spec ≡ w.instance.spec)
              × (b.1.cluster ≡ q.1.cluster)))

  live-Guards :
      (v : World P.State) (timestamp : Option String)
      → timestamp ≡ none
      → (P.add_finalizer v.instance.meta.finalizers P.finalizer).1 ≡ true
      → let b = dispatch P d timestamp v in
        (b.1.trace ≡ v.trace)
        × (b.0 ≡ returns done)
        × (b.1.instance.meta ≡ guarded v.instance.meta)
        × (b.1.instance.spec ≡ v.instance.spec)
        × (b.1.cluster ≡ v.cluster)
  unfolding dispatch reconcile_live
  live-Guards v none e added = rw added (refl, refl, refl, refl, refl)
  live-Guards v (some x) e added = cc

  resolved-Guards :
      (w : World P.State) (o : Outcome String) (v : World P.State)
      → w.instance.meta.deletion_timestamp ≡ none
      → (P.add_finalizer w.instance.meta.finalizers P.finalizer).1 ≡ true
      → PanicsOrRecords P w (o, v)
      → Guards w
          (o, v)
          (resume (λ _ (u : World P.State). dispatch P d u.instance.meta.deletion_timestamp u) o v)
  resolved-Guards w o v live added (inl (e, t)) = rw e (t, inl (refl, refl))
  resolved-Guards w o v live added (inr (version, _, e, _, only)) =
      let meta = ap (λ (x : OpenStackLightspeed). x.meta) only.2 in
      let spec = ap (λ (x : OpenStackLightspeed). x.spec) only.2 in
      let (t, ended, m, q, c) =
        live-Guards v v.instance.meta.deletion_timestamp
          (ap (λ (m : ObjectMeta). m.deletion_timestamp) meta ∙ live)
          (ap (λ (m : ObjectMeta). (P.add_finalizer m.finalizers P.finalizer).1) meta ∙ added) in
      rw e (t ∙ only.0, inr (ended, m ∙ ap guarded meta, q ∙ spec, c))

  body-Guards :
      (w : World P.State)
      → w.instance.meta.deletion_timestamp ≡ none
      → (P.add_finalizer w.instance.meta.finalizers P.finalizer).1 ≡ true
      → Guards w (versioned w) (reconcile_body P d w)
  unfolding reconcile_body
  body-Guards w live added =
      let start = record w { instance = init_status P d w.instance } in
      resolved-Guards start (resolve_version P start).0 (resolve_version P start).1 live added
        (resolve_version_lem P start)

  -- The one write is the patch of the instance with the finalizer.
  abbrev pub SavesFinalizer : World P.State → Outcome ReconcileResult × World P.State → Type 0
  SavesFinalizer w r =
      (j : OpenStackLightspeed) × (r.1.trace ≡ patched_instance j ∷ w.trace)
      × (j.meta ≡ guarded w.instance.meta)
      × (j.spec ≡ w.instance.spec)
      × ((r.0 ≡ returns done)
          ⊎ ((r.0 ≡ panics) × ((P.patch_instance j (versioned w).1.cluster).0 ≡ panics)))

  finish-done :
      (saved : List Condition) (v : World P.State)
      → let r = finish P d saved (returns done) v in
        let j = summarized P d saved v.instance in
        (r.1.trace ≡ patched_instance j ∷ v.trace)
        × ((r.0 ≡ returns done) ⊎ ((r.0 ≡ panics) × ((P.patch_instance j v.cluster).0 ≡ panics)))
  unfolding finish save_status
  finish-done saved v = ground arith

  finish_panics :
      (saved : List Condition) (v : World P.State) → finish P d saved panics v ≡ (panics, v)
  unfolding finish
  finish_panics saved v = refl

  -- The run of the body and of the deferred function: the version panics and nothing is written,
  -- or the finalizer is saved.
  abbrev pub PanicsOrSaves : World P.State → Outcome ReconcileResult × World P.State → Type 0
  PanicsOrSaves w r =
      (((versioned w).0 ≡ panics) × (r.0 ≡ panics) × (r.1.trace ≡ w.trace)) ⊎ SavesFinalizer w r

  finish-PanicsOrSaves :
      (saved : List Condition) (w : World P.State) (o : Outcome ReconcileResult) (v : World P.State)
      → Guards w (versioned w) (o, v)
      → PanicsOrSaves w (finish P d saved o v)
  finish-PanicsOrSaves saved w o v (t, inl (q, e)) =
      rw (e, finish_panics saved v) (inl (q, refl, t))
  finish-PanicsOrSaves saved w o v (t, inr (e, meta, spec, cluster)) =
      let j = summarized P d saved v.instance in
      let (wrote, ended) = finish-done saved v in
      rw e (
        inr (
          j,
          wrote ∙ ap (λ x. patched_instance j ∷ x) t,
          meta,
          spec,
          subst
              (λ c.
                ((finish P d saved (returns done) v).0 ≡ returns done)
                ⊎ (((finish P d saved (returns done) v).0 ≡ panics)
                    × ((P.patch_instance j c).0 ≡ panics)))
              cluster ended,
        ))

  -- By the outcome of making the helper: where that fails or panics nothing is written, and the run
  -- ends in the same way.
  abbrev pub FirstRun :
      Outcome (Unit {0}) → World P.State → Outcome ReconcileResult × World P.State → Type 0
  FirstRun (returns _) w r = PanicsOrSaves w r
  FirstRun (fails e) w r = (r.0 ≡ fails e) × (r.1.trace ≡ w.trace)
  FirstRun panics w r = (r.0 ≡ panics) × (r.1.trace ≡ w.trace)

  found-FirstRun :
      (o : Outcome (Unit {0})) (v : World P.State)
      → v.instance.meta.deletion_timestamp ≡ none
      → (P.add_finalizer v.instance.meta.finalizers P.finalizer).1 ≡ true
      → FirstRun o v
          (resume (λ _. with_deferred P d v.instance.status.conditions (reconcile_body P d)) o v)
  unfolding with_deferred
  found-FirstRun (returns _) v live added =
      finish-PanicsOrSaves v.instance.status.conditions v (reconcile_body P d v).0
        (reconcile_body P d v).1 (body-Guards v live added)
  found-FirstRun (fails e) v live added = (refl, refl)
  found-FirstRun panics v live added = (refl, refl)

  -- Where the API server returns an instance that is not being deleted and does not have the
  -- finalizer yet, the run writes nothing to the cluster but one patch, of the instance with the
  -- finalizer added and with the rest of its metadata and its specification as they were, and then
  -- returns and asks for no other run, unless the patch panics: the finalizer is saved before
  -- anything is installed. Nothing is written at all only where the run's helper cannot be made or
  -- the resolution of the version panics, and then the run ends with that error or panic.
  pub reconcile_run_first :
      (w : World P.State) (key : ObjectKey) (i : OpenStackLightspeed) (s : P.State)
      → P.get_instance key w.cluster ≡ (returns i, s)
      → i.meta.deletion_timestamp ≡ none
      → (P.add_finalizer i.meta.finalizers P.finalizer).1 ≡ true
      → let (helper, t) = P.new_helper i s in
        FirstRun helper
          (record { cluster = t; trace = w.trace; instance = i })
          (reconcile P d key w)
  unfolding reconcile reconcile_found
  reconcile_run_first w key i s h live added =
      rw h (found-FirstRun (P.new_helper i s).0 _ live added)

  -- Where the API server returns no instance, the run writes nothing to the cluster: it ends
  -- without an error if the instance is not there, and with the error of the API server if not.
  pub reconcile_run_absent :
      (w : World P.State) (key : ObjectKey) (e : Error) (s : P.State)
      → P.get_instance key w.cluster ≡ (fails e, s)
      → ((reconcile P d key w).1.trace ≡ w.trace)
        × (((is_not_found e ≡ true) × ((reconcile P d key w).0 ≡ returns done))
            ⊎ ((is_not_found e ≡ false) × ((reconcile P d key w).0 ≡ fails e)))
  unfolding reconcile reconcile_found
  reconcile_run_absent w key e s h = rw h (elim (Bool-cases (is_not_found e)) [
    | inl gone ↦ rw gone (refl, inl (refl, refl))
    | inr other ↦ rw other (refl, inr (refl, refl))
  ])
