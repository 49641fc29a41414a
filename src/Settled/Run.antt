-- ===== src/Settled/Run.antt =====
-- `Reconcile`, where all is in place.
use osls_operator.Base.{
  String, ◌≡◌, refl, sym, ap, ◌∙◌, subst, arith, Bool, true, false, Option, none, some, List, [],
  ◌∷◌, if◌then◌else◌, Result, ok, err,
}
use osls_operator.Json.{Fields}
use osls_operator.Api.{OpenStackLightspeed, OpenStackLightspeedDefaults}
use osls_operator.Api.Kubernetes.{ObjectMeta, ObjectKey, ReconcileResult}
use osls_operator.Platform.{Platform, OperationResult}
use osls_operator.Platform.Exec.{
  returns, World, Exec, ◌>>=◌, ◌>>◌, pure, call, lift, try, get_instance, modify_instance,
  patched_olsconfig,
}
use osls_operator.Platform.Kinds.{
  Kind, kinds, save_subscription, update_csv, update_plan, patch_config, patch_status,
}
use osls_operator.Platform.Trace.{Any}
use osls_operator.OlsConfig.Get.{first_olsconfig, get_olsconfig}
use osls_operator.OlsConfig.Ready.{ready_or_ping, is_olsconfig_ready}
use osls_operator.Controller.Status.{with_finalizers}
use osls_operator.Controller.Delete.{done}
use osls_operator.Controller.Reconcile.{
  after_ready, after_configure, save_olsconfig, configure_instance, configure, after_ensure,
  apply_defaults, install_and_configure, reconcile_live, dispatch, init_status, reconcile_body,
  with_deferred, reconcile_found, reconcile,
}
use osls_operator.Settled.Rules.{
  At, Leads-Replies, Yields, Goes-pure, Goes-lift, Yields-call, Yields-write, Goes-try, Goes-bind,
  Yields-get_instance, Yields-modify_instance, Succeeds,
}
use osls_operator.Settled.Deferred.{helped-Goes}
use osls_operator.Settled.Laws.{FirstReady, Settled}
use osls_operator.Settled.Install.{ensure-Yields}
use osls_operator.Settled.Version.{mark_true-Yields, resolve_version-Yields}

module _ (P : Platform) (d : OpenStackLightspeedDefaults) (meta : ObjectMeta)
    (Good : P.State → Type 0) (h : Settled P d meta Good) where
  abbrev ReadyConfig : Fields → Type 0
  ReadyConfig config =
      P.uns.nested_string config ("status" ∷ "overallStatus" ∷ []) ≡ ok (some "Ready")

  first_olsconfig-Yields :
      (configs : List Fields)
      → FirstReady P d meta configs
      → Yields Good meta [] ReadyConfig (first_olsconfig P configs)
  unfolding first_olsconfig
  first_olsconfig-Yields configs (config, rest, is, ready) = rw is (Goes-pure config ready)

  get_olsconfig-Yields : Yields Good meta [] ReadyConfig (get_olsconfig P)
  unfolding get_olsconfig
  get_olsconfig-Yields =
      Goes-bind (call P.list_olsconfigs) (first_olsconfig P)
        (Yields-call Good meta P.list_olsconfigs h.list_olsconfigs) first_olsconfig-Yields

  ready_or_ping-Yields :
      (status : Option String)
      → status ≡ some "Ready"
      → Yields Good meta [] (λ b. b ≡ true) (ready_or_ping P status)
  unfolding ready_or_ping
  ready_or_ping-Yields status is = rw is (Goes-pure true refl)

  is_ready-Yields : Yields Good meta [] (λ b. b ≡ true) (is_olsconfig_ready P)
  unfolding is_olsconfig_ready
  is_ready-Yields = Goes-bind _ _ get_olsconfig-Yields λ config ready.
      Goes-bind {R = λ (x : Option String). x ≡ some "Ready"}
        (lift (P.uns.nested_string config ("status" ∷ "overallStatus" ∷ []))) (ready_or_ping P)
        (Goes-lift _ (some "Ready") ready refl) ready_or_ping-Yields

  after_ready-Yields :
      (ready : Bool) → ready ≡ true → Yields Good meta [] (λ r. r ≡ done) (after_ready P d ready)
  unfolding after_ready
  after_ready-Yields true _ =
      Goes-bind _ _ (mark_true-Yields P meta Good _ _) λ _ _. Goes-pure done refl
  after_ready-Yields false e = absurd (ground arith)

  after_configure-Yields :
      (r : Result (OperationResult × Fields))
      → Succeeds Any r
      → Yields Good meta [] (λ r. r ≡ done) (after_configure P d r)
  unfolding after_configure
  after_configure-Yields (ok _) _ = Goes-bind _ _ is_ready-Yields after_ready-Yields
  after_configure-Yields (err e) failed = absurd failed

  configure_instance-Yields :
      (i : OpenStackLightspeed)
      → i.meta ≡ meta
      → Yields Good meta (patch_config ∷ []) (λ r. r ≡ done) (configure_instance P d i)
  unfolding configure_instance
  configure_instance-Yields i same =
      Goes-bind (try (save_olsconfig P d i)) (after_configure P d)
        (Goes-try (save_olsconfig P d i)
          (Yields-write Good meta (patched_olsconfig _) _ (h.create_or_patch_olsconfig i same)))
        after_configure-Yields

  configure-Yields : Yields Good meta (patch_config ∷ []) (λ r. r ≡ done) (configure P d)
  unfolding configure
  configure-Yields =
      Goes-bind _ _ (mark_true-Yields P meta Good _ _)
        λ _ _. Goes-bind _ _ (Yields-get_instance Good meta) configure_instance-Yields

  after_ensure-Yields :
      (r : Result Bool)
      → Succeeds (λ b. b ≡ true) r
      → Yields Good meta (patch_config ∷ []) (λ r. r ≡ done) (after_ensure P d r)
  unfolding after_ensure
  after_ensure-Yields (ok true) _ = configure-Yields
  after_ensure-Yields (ok false) e = absurd (ground arith)
  after_ensure-Yields (err e) failed = absurd failed

  abbrev pub live_writes : List Kind
  live_writes = patch_config ∷ update_csv ∷ update_plan ∷ save_subscription ∷ []

  install_and_configure-Yields :
      Yields Good meta live_writes (λ r. r ≡ done) (install_and_configure P d)
  unfolding install_and_configure apply_defaults
  install_and_configure-Yields =
      Goes-bind _ _ (Yields-modify_instance Good meta (apply_defaults P d) λ j e. e) λ _ _.
        Goes-bind _ _ (Yields-get_instance Good meta) λ i same.
          Goes-bind _ _ (Goes-try _ (ensure-Yields P d meta Good h i same)) after_ensure-Yields

  -- `Reconcile`, with what `AddFinalizer` returns
  abbrev with_finalizer : List String × Bool → Exec P.State ReconcileResult
  with_finalizer (fs, added) = do
    modify_instance (with_finalizers fs)
    if added then pure done else install_and_configure P d

  keep_finalizers :
      (fs : List String) (j : OpenStackLightspeed)
      → fs ≡ meta.finalizers
      → j.meta ≡ meta
      → (with_finalizers fs j).meta ≡ meta
  keep_finalizers fs j is same =
      subst (λ (m : ObjectMeta). record m { finalizers = fs } ≡ meta) (sym same)
        (subst (λ (gs : List String). record meta { finalizers = gs } ≡ meta) (sym is) refl)

  with_finalizer-Yields :
      (r : List String × Bool)
      → r ≡ (meta.finalizers, false)
      → Yields Good meta live_writes (λ r. r ≡ done) (with_finalizer r)
  with_finalizer-Yields r is = rw is (
      Goes-bind (modify_instance (with_finalizers meta.finalizers)) (λ _. install_and_configure P d)
        (Yields-modify_instance Good meta _ λ j same. keep_finalizers meta.finalizers j refl same)
        λ _ _. install_and_configure-Yields)

  reconcile_live-Yields : Yields Good meta live_writes (λ r. r ≡ done) (reconcile_live P d)
  unfolding reconcile_live
  reconcile_live-Yields =
      Goes-bind get_instance (λ i. with_finalizer (P.add_finalizer i.meta.finalizers P.finalizer))
        (Yields-get_instance Good meta)
        λ i same. with_finalizer-Yields (P.add_finalizer i.meta.finalizers P.finalizer) (
          ap (λ (m : ObjectMeta). P.add_finalizer m.finalizers P.finalizer) same
          ∙ h.finalizer_there)

  dispatch-Yields :
      (timestamp : Option String)
      → timestamp ≡ none
      → Yields Good meta live_writes (λ r. r ≡ done) (dispatch P d timestamp)
  unfolding dispatch
  dispatch-Yields none e = reconcile_live-Yields
  dispatch-Yields (some x) e = absurd (ground arith)

  module _ (live : meta.deletion_timestamp ≡ none) where
    reconcile_body-Yields : Yields Good meta live_writes (λ r. r ≡ done) (reconcile_body P d)
    unfolding reconcile_body
    reconcile_body-Yields =
        Goes-bind _ _ (Yields-modify_instance Good meta (init_status P d) λ j e. e) λ _ _.
          Goes-bind _ _
            (resolve_version-Yields P meta Good h.get_config h.new_client h.get_cluster_version)
            λ _ _. Goes-bind _ _ (Yields-get_instance Good meta) λ i same.
              dispatch-Yields i.meta.deletion_timestamp
                (ap (λ (m : ObjectMeta). m.deletion_timestamp) same ∙ live)

    helped-Yields :
        (i : OpenStackLightspeed)
        → i.meta ≡ meta
        → Yields Good meta
            (patch_status ∷ live_writes)
            (λ r. r ≡ done)
            (call (P.new_helper i) >>= λ _.
              with_deferred P d i.status.conditions (reconcile_body P d))
    helped-Yields i same =
        helped-Goes P d (At Good meta) (λ j. j.meta ≡ meta) (λ s j g. g.1) (λ f s j g. g)
          (λ j e. Leads-Replies Good Good meta (P.patch_instance j) (h.patch_instance j e)) i
          i.status.conditions (reconcile_body P d)
          (Leads-Replies Good Good meta (P.new_helper i) (h.new_helper i same))
          reconcile_body-Yields

-- Where all is in place for a live instance and every call is answered well, the run returns, asks
-- for no other run and has done five writes, in this order: the Subscription, the approval of the
-- plan, the ownership of the CSV, the OLSConfig, and the patch of the instance. All is in place
-- after it as before.
pub reconcile_settled :
    (P : Platform) (d : OpenStackLightspeedDefaults) (Good : P.State → Type 0)
    (i : OpenStackLightspeed)
    → Settled P d i.meta Good
    → i.meta.deletion_timestamp ≡ none
    → (w : World P.State) (key : ObjectKey) (s : P.State)
    → P.get_instance key w.cluster ≡ (returns i, s)
    → Good s
    → let r = reconcile P d key w in
      (r.0 ≡ returns done)
      × (kinds r.1.trace
          ≡ patch_status
            ∷ patch_config
            ∷ update_csv
            ∷ update_plan
            ∷ save_subscription
            ∷ kinds w.trace)
      × Good r.1.cluster
unfolding reconcile reconcile_found
reconcile_settled P d Good i h live w key s found good = rw found (
    let m = helped-Yields P d i.meta Good h live i refl in
    let y = m.goes (record { cluster = s; trace = w.trace; instance = i }) (good, refl) in
    (y.returned ∙ ap returns y.holds, y.written, y.good.0))
