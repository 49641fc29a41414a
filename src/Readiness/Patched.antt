-- ===== src/Readiness/Patched.antt =====
-- When a run patches its instance as ready.
use osls_operator.Base.{
  String, ◌≡◌, refl, sym, ap, ◌∙◌, subst, arith, inl, inr, true, false, ◌==◌, Bool-cases, none,
  List, [], ◌∷◌, ◌≢◌,
}
use osls_operator.Api.{OpenStackLightspeed, OpenStackLightspeedDefaults}
use osls_operator.Api.Conditions.{Condition, openstack_lightspeed_ready_condition}
use osls_operator.Api.Kubernetes.{ObjectKey, ReconcileResult}
use osls_operator.Platform.{Platform}
use osls_operator.Platform.Exec.{
  Outcome, returns, fails, panics, Event, World, resume, patched_instance,
}
use osls_operator.Platform.Kinds.{Kind, kinds}
use osls_operator.Main.{is_ready}
use osls_operator.Controller.Delete.{done}
use osls_operator.Controller.Persist.{summarized}
use osls_operator.Controller.Resolving.{PanicsOrRecords, resolve_version_lem}
use osls_operator.Controller.Version.{resolve_version}
use osls_operator.Controller.Reconcile.{
  dispatch, init_status, reconcile_body, summarize, save_status, finish, with_deferred,
  reconcile_found, reconcile,
}
use osls_operator.Readiness.Laws.{IsLawful, Unready, UnreadyWorld}
use osls_operator.Readiness.Kept.{set-Unready, mark_true-Unready, resolve_version-StaysUnready}
use osls_operator.Readiness.Run.{UnreadyOrLive, live_writes, dispatch_lem}

cons_patched :
    {i j : OpenStackLightspeed} {s t : List Event}
    → patched_instance i ∷ s ≡ patched_instance j ∷ t
    → (i ≡ j) × (s ≡ t)
cons_patched h = ground arith

module _ (P : Platform) (d : OpenStackLightspeedDefaults) (laws : IsLawful P.conditions) where
  after_resolve_lem :
      (w : World P.State) (o : Outcome String) (v : World P.State)
      → PanicsOrRecords P w (o, v)
      → UnreadyWorld P v
      → UnreadyOrLive P d laws
          (kinds w.trace)
          w.instance.meta.deletion_timestamp
          (resume (λ _ (u : World P.State). dispatch P d u.instance.meta.deletion_timestamp u) o v)
  after_resolve_lem w o v (inl (e, _)) u = rw e (inl u)
  after_resolve_lem w o v (inr (version, _, e, _, (t, status, is))) u = rw e (
      let r = dispatch P d v.instance.meta.deletion_timestamp v in
      subst (λ ks. UnreadyOrLive P d laws ks w.instance.meta.deletion_timestamp r) (ap kinds t)
        (subst
          (λ (x : OpenStackLightspeed).
            UnreadyOrLive P d laws (kinds v.trace) x.meta.deletion_timestamp r)
          is (dispatch_lem P d laws v.instance.meta.deletion_timestamp v u)))

  body_lem :
      (w : World P.State)
      → UnreadyOrLive P d laws
          (kinds w.trace)
          w.instance.meta.deletion_timestamp
          (reconcile_body P d w)
  unfolding reconcile_body
  body_lem w =
      let start = record w { instance = init_status P d w.instance } in
      let resolved = resolve_version P start in
      after_resolve_lem start resolved.0 resolved.1 (resolve_version_lem P start) (
        resolve_version-StaysUnready P laws start
          (laws.is_true-init w.instance.status.conditions openstack_lightspeed_ready_condition _ _))

  mark_unknown-Unready :
      (cs : List Condition) (t reason message : String)
      → (t == openstack_lightspeed_ready_condition) ≡ false
      → Unready P cs
      → Unready P (P.conditions.mark_unknown cs t reason message)
  mark_unknown-Unready cs t reason message other u =
      laws.is_true-mark_unknown cs t reason message openstack_lightspeed_ready_condition
      ∙ rw other u

  summarize-Unready : (cs : List Condition) → Unready P cs → Unready P (summarize P d cs)
  unfolding summarize
  summarize-Unready cs u = elim (Bool-cases (P.conditions.all_sub_condition_is_true cs)) [
    | inl e ↦ rw e (mark_true-Unready P laws cs P.conditions.ready_condition _ laws.ready-other u)
    | inr e ↦ rw e (
        set-Unready P laws _ _
          (rw (laws.type-mirror _ P.conditions.ready_condition) laws.ready-other)
          (mark_unknown-Unready cs P.conditions.ready_condition _ _ laws.ready-other u))
  ]

  summarized-Unready :
      (saved : List Condition) (i : OpenStackLightspeed)
      → Unready P i.status.conditions
      → Unready P (summarized P d saved i).status.conditions
  summarized-Unready saved i u =
      summarize-Unready _
        (laws.is_true-restore i.status.conditions saved openstack_lightspeed_ready_condition ∙ u)

  finish_lem :
      (saved : List Condition) (o : Outcome ReconcileResult) (v : World P.State)
      → (finish P d saved o v).0 ≢ panics
      → ((finish P d saved o v).1.trace
          ≡ patched_instance (summarized P d saved v.instance) ∷ v.trace)
        × ((finish P d saved o v).0 ≡ o)
  unfolding finish save_status
  finish_lem saved panics v h = absurd (h refl)
  finish_lem saved (returns x) v h = ground arith
  finish_lem saved (fails e) v h = ground arith

  -- The run has gone all the way for a live instance.
  abbrev pub AllDone :
      OpenStackLightspeed → Outcome ReconcileResult → List Event → List Kind → Type 0
  AllDone i o t before =
      (i.meta.deletion_timestamp ≡ none)
      × (o ≡ returns done)
      × (kinds t ≡ live_writes P d laws before)

  finish_ready :
      (i j : OpenStackLightspeed) (before : List Kind) (t : List Event) (saved : List Condition)
      (o : Outcome ReconcileResult) (v : World P.State)
      → UnreadyOrLive P d laws before i.meta.deletion_timestamp (o, v)
      → (finish P d saved o v).0 ≢ panics
      → (finish P d saved o v).1.trace ≡ patched_instance j ∷ t
      → is_ready P j ≡ true
      → AllDone i (finish P d saved o v).0 t before
  unfolding is_ready
  finish_ready i j before t saved o v (inl u) calm traced ready =
      let (patched, _) = finish_lem saved o v calm in
      let (is, _) = cons_patched (sym patched ∙ traced) in
      absurd (
        let no : Unready P j.status.conditions =
          subst (λ (x : OpenStackLightspeed). Unready P x.status.conditions) is
            (summarized-Unready saved v.instance u) in
        ground arith)
  finish_ready i j before t saved o v (inr (live, finished, writes)) calm traced ready =
      let (patched, same) = finish_lem saved o v calm in
      let (_, is) = cons_patched (sym patched ∙ traced) in
      (live, same ∙ finished, ap kinds (sym is) ∙ writes)

  helper_ready :
      (i j : OpenStackLightspeed) (o : Outcome (Unit {0})) (v : World P.State) (t : List Event)
      → v.trace ≡ []
      → v.instance ≡ i
      → let r = resume (λ _. with_deferred P d i.status.conditions (reconcile_body P d)) o v in
        r.0 ≢ panics → r.1.trace ≡ patched_instance j ∷ t → is_ready P j ≡ true → AllDone i r.0 t []
  unfolding with_deferred
  helper_ready i j (returns _) v t begun same calm traced ready =
      let body = reconcile_body P d v in
      let h =
        subst
          (λ (x : OpenStackLightspeed).
            UnreadyOrLive P d laws (kinds v.trace) x.meta.deletion_timestamp body)
          same (body_lem v) in
      finish_ready i j [] t i.status.conditions body.0 body.1
        (subst (λ ks. UnreadyOrLive P d laws ks i.meta.deletion_timestamp body) (ap kinds begun) h)
        calm traced ready
  helper_ready i j (fails x) v t begun same calm traced ready = absurd (ground arith)
  helper_ready i j panics v t begun same calm traced ready = absurd (calm refl)

  -- With the laws of the condition package: where a run does not panic and the instance that it
  -- patches last is ready, the instance that it got is not being deleted, and the run has gone all
  -- the way: it has saved the Subscription, approved the plan, taken the CSV and saved the
  -- OLSConfig, in this order, has pinged no OLSConfig, and asks for no other run.
  pub reconcile_ready :
      (w : World P.State) (key : ObjectKey) (i j : OpenStackLightspeed) (s : P.State)
      (t : List Event)
      → w.trace ≡ []
      → P.get_instance key w.cluster ≡ (returns i, s)
      → (reconcile P d key w).0 ≢ panics
      → (reconcile P d key w).1.trace ≡ patched_instance j ∷ t
      → is_ready P j ≡ true
      → AllDone i (reconcile P d key w).0 t []
  unfolding reconcile reconcile_found
  reconcile_ready w key i j s t begun found calm traced ready =
      let o = (P.new_helper i s).0 in
      rw found (helper_ready i j o _ t begun refl (rw found at calm) (rw found at traced) ready)
