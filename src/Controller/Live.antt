-- ===== src/Controller/Live.antt =====
-- What the reconciler may write for an instance that is not being deleted.
use osls_operator.Base.{
  ◌≡◌, refl, ap, ◌∙◌, String, Bool, true, false, Bool-cases, ◌⊎◌, inl, inr, Option, none, some,
  List, [], ◌∷◌, Result, ok, err,
}
use osls_operator.Json.{Fields}
use osls_operator.Api.{OpenStackLightspeed, OpenStackLightspeedDefaults}
use osls_operator.Api.Kubernetes.{ReconcileResult}
use osls_operator.Platform.{Platform, OperationResult}
use osls_operator.Platform.Exec.{
  Outcome, Event, World, Exec, ◌>>=◌, resume, call, lift, try, patched_olsconfig, updated_olsconfig,
}
use osls_operator.Platform.Trace.{
  Extends, same, wrote, Extends-mono, Extends-start, Ensures, Any, Ensures-bind, Ensures-pure,
  Ensures-try, Ensures-call, Ensures-lift, Ensures-of_Reads, Returns-Any, Ensures-mono,
}
use osls_operator.OlsConfig.Get.{get_olsconfig}
use osls_operator.OlsConfig.Removal.{get_olsconfig-Reads}
use osls_operator.OlsConfig.Ready.{
  is_ready_status, olsconfig_ping, ready_or_ping, is_olsconfig_ready,
}
use osls_operator.OlsInstall.Installing.{MayInstall, ensure-Ensures}
use osls_operator.OlsInstall.Operator.{ensure_ols_operator_installed}
use osls_operator.Controller.Status.{with_finalizers}
use osls_operator.OlsInstall.Subscription.{instance_owner_reference}
use osls_operator.OlsInstall.Version.{get_ols_subscription_name}
use osls_operator.Controller.Resolving.{StatusOnly, PanicsOrRecords, resolve_version_lem}
use osls_operator.Controller.Version.{resolve_version}
use osls_operator.Controller.Reconcile.{
  new_olsconfig, after_ready, after_configure, save_olsconfig, configure_instance, configure,
  after_ensure, apply_defaults, install_and_configure, reconcile_live, dispatch, init_status,
  reconcile_body,
}

module _ (P : Platform) (d : OpenStackLightspeedDefaults) where
  -- The calls that configure the OLS operator: they save the one OLSConfig and ping it.
  abbrev pub MayConfigure : Event → Type 0
  MayConfigure (patched_olsconfig config) = config ≡ new_olsconfig P d
  MayConfigure (updated_olsconfig config) = Unit
  MayConfigure _ = ⊥

  get_olsconfig-Ensures : Ensures MayConfigure Any (get_olsconfig P)
  get_olsconfig-Ensures = Ensures-of_Reads _ (get_olsconfig-Reads P) λ w. Returns-Any _

  ping-Ensures : Ensures MayConfigure Any (olsconfig_ping P)
  unfolding olsconfig_ping
  ping-Ensures = Ensures-bind _ _ get_olsconfig-Ensures λ config _.
      Ensures-bind (call P.rand_int) _ (Ensures-call P.rand_int)
        λ n _. record { writes = λ w. wrote _ tt same; result = λ w. Returns-Any _ }

  ready_or_ping-Ensures :
      (status : Option String) → Ensures MayConfigure Any (ready_or_ping P status)
  unfolding ready_or_ping
  ready_or_ping-Ensures status = elim (Bool-cases (is_ready_status status)) [
    | inl e ↦ rw e (Ensures-pure _ tt)
    | inr e ↦ rw e (Ensures-bind _ _ ping-Ensures λ _ _. Ensures-pure _ tt)
  ]

  abbrev ready_field : Fields → Result (Option String)
  ready_field config = P.uns.nested_string config ("status" ∷ "overallStatus" ∷ [])

  is_ready-Ensures : Ensures MayConfigure Any (is_olsconfig_ready P)
  unfolding is_olsconfig_ready
  is_ready-Ensures = Ensures-bind _ _ get_olsconfig-Ensures λ config _.
      Ensures-bind (lift (ready_field config)) (ready_or_ping P) (Ensures-lift (ready_field config))
        λ status _. ready_or_ping-Ensures status

  after_ready-Ensures : (ready : Bool) → Ensures MayConfigure Any (after_ready P d ready)
  unfolding after_ready
  after_ready-Ensures true = record { writes = λ w. same; result = λ w. tt }
  after_ready-Ensures false = Ensures-pure _ tt

  after_configure-Ensures :
      (r : Result (OperationResult × Fields)) → Ensures MayConfigure Any (after_configure P d r)
  unfolding after_configure
  after_configure-Ensures (err e) = record { writes = λ w. same; result = λ w. tt }
  after_configure-Ensures (ok _) =
      Ensures-bind _ _ is_ready-Ensures λ ready _. after_ready-Ensures ready

  try_patch-Ensures :
      (i : OpenStackLightspeed) → Ensures MayConfigure Any (configure_instance P d i)
  unfolding configure_instance
  try_patch-Ensures i =
      Ensures-bind (try (save_olsconfig P d i)) (after_configure P d)
        (Ensures-try (save_olsconfig P d i)
          (record { writes = λ w. wrote _ refl same; result = λ w. Returns-Any _ }))
        λ r _. after_configure-Ensures r

  configure-Ensures : Ensures MayConfigure Any (configure P d)
  unfolding configure
  configure-Ensures = record {
    writes = λ w. (try_patch-Ensures _).writes _;
    result = λ w. (try_patch-Ensures _).result _;
  }

  after_ensure-Ensures : (r : Result Bool) → Ensures MayConfigure Any (after_ensure P d r)
  unfolding after_ensure
  after_ensure-Ensures (err e) = record { writes = λ w. same; result = λ w. tt }
  after_ensure-Ensures (ok false) = record { writes = λ w. same; result = λ w. tt }
  after_ensure-Ensures (ok true) = configure-Ensures

  -- What the reconciler may write for a live instance.
  abbrev pub MayWriteLive : OpenStackLightspeed → Event → Type 0
  MayWriteLive i e = MayInstall P i e ⊎ MayConfigure e

  ensure_then-Ensures :
      (i : OpenStackLightspeed)
      → Ensures (MayWriteLive i) Any (try (ensure_ols_operator_installed P i) >>= after_ensure P d)
  ensure_then-Ensures i =
      Ensures-bind (try (ensure_ols_operator_installed P i)) (after_ensure P d)
        (Ensures-try _ (Ensures-mono _ (λ e h. inl h) (ensure-Ensures P i)))
        λ r _. Ensures-mono _ (λ e h. inr h) (after_ensure-Ensures r)

  install_and_configure_writes :
      (w : World P.State)
      → Extends
          (MayWriteLive (apply_defaults P d w.instance))
          w.trace
          (install_and_configure P d w).1.trace
  unfolding install_and_configure
  install_and_configure_writes w =
      (ensure_then-Ensures (apply_defaults P d w.instance)).writes
        (record w { instance = apply_defaults P d w.instance })

  MayWriteLive-apply_defaults :
      (i : OpenStackLightspeed) (fs : List String) (e : Event)
      → MayWriteLive (apply_defaults P d (with_finalizers fs i)) e
      → MayWriteLive i e
  unfolding apply_defaults instance_owner_reference get_ols_subscription_name
  MayWriteLive-apply_defaults i fs e h = h

  reconcile_live_writes :
      (w : World P.State) → Extends (MayWriteLive w.instance) w.trace (reconcile_live P d w).1.trace
  unfolding reconcile_live
  reconcile_live_writes w =
      let (fs, added) = P.add_finalizer w.instance.meta.finalizers P.finalizer in
      elim (Bool-cases added) [
        | inl e ↦ rw e same
        | inr e ↦ rw e (
            Extends-mono (MayWriteLive-apply_defaults w.instance fs) (
              install_and_configure_writes (record w { instance = with_finalizers fs w.instance })))
      ]

  StatusOnly-live :
      (w v : World P.State)
      → StatusOnly P w v
      → (e : Event) → MayWriteLive v.instance e
      → MayWriteLive w.instance e
  unfolding instance_owner_reference
  StatusOnly-live w v (_, status, is) e h = rw is at h

  -- The rest of the reconciler, after `resolveOCPVersion`.
  abbrev after_resolve : Exec P.State ReconcileResult
  after_resolve w = dispatch P d w.instance.meta.deletion_timestamp w

  dispatch_live :
      (v : World P.State) (timestamp : Option String)
      → timestamp ≡ none
      → Extends (MayWriteLive v.instance) v.trace (dispatch P d timestamp v).1.trace
  unfolding dispatch
  dispatch_live v none e = reconcile_live_writes v
  dispatch_live v (some x) e = cc

  after_resolve_writes :
      (w : World P.State) (o : Outcome String) (v : World P.State)
      → w.instance.meta.deletion_timestamp ≡ none
      → PanicsOrRecords P w (o, v)
      → Extends (MayWriteLive w.instance) w.trace (resume (λ _. after_resolve) o v).1.trace
  unfolding dispatch
  after_resolve_writes w o v live (inl (e, t)) = rw e (Extends-start t same)
  after_resolve_writes w o v live (inr (version, _, e, _, only)) = rw e (
      let live_v : v.instance.meta.deletion_timestamp ≡ none =
        ap (λ (x : OpenStackLightspeed). x.meta.deletion_timestamp) only.2 ∙ live in
      Extends-start only.0 (Extends-mono (StatusOnly-live w v only) (dispatch_live v _ live_v)))

  -- For an instance that is not being deleted, whatever the API server answers, the reconciler
  -- deletes nothing: before the deferred patch of the instance it writes only the instance's own
  -- subscription, the approval of an InstallPlan of the OLS operator, the ownership of a CSV of
  -- the OLS operator, the one OLSConfig, and the OLSConfig's ping.
  pub reconcile_body_live :
      (w : World P.State)
      → w.instance.meta.deletion_timestamp ≡ none
      → Extends (MayWriteLive w.instance) w.trace (reconcile_body P d w).1.trace
  unfolding reconcile_body instance_owner_reference
  reconcile_body_live w live =
      let start = record w { instance = init_status P d w.instance } in
      after_resolve_writes start (resolve_version P start).0 (resolve_version P start).1 live
        (resolve_version_lem P start)
