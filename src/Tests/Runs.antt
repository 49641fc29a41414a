-- ===== src/Tests/Runs.antt =====
-- The theorems on the reconciler, at clusters in memory.
use osls_operator.Base.{◌≡◌, refl, ◌⊎◌, [], ◌∷◌}
use osls_operator.Api.Kubernetes.{ObjectKey}
use osls_operator.Platform.Exec.{returns, panics, World, patched_instance}
use osls_operator.Platform.Trace.{Extends}
use osls_operator.OlsInstall.Operator.{uninstall_instance_owned_ols_operator}
use osls_operator.Controller.Delete.{reconcile_delete}
use osls_operator.Controller.Reconcile.{reconcile_body, with_deferred, reconcile, apply_defaults}
use osls_operator.Controller.Run.{OrPatches, reconcile_run_live, reconcile_run_deleted}
use osls_operator.Controller.Ends.{FailedOrReady, install_and_configure-done}
use osls_operator.Controller.Reconcile.{install_and_configure}
use osls_operator.OlsInstall.Operator.{ensure_ols_operator_installed}
use osls_operator.Json.{Fields, field, object, str, end}
use osls_operator.Tests.Store.{labelled}
use osls_operator.Controller.First.{FirstRun, reconcile_run_first}
use osls_operator.Api.{OpenStackLightspeed}
use osls_operator.Controller.Live.{MayWriteLive}
use osls_operator.Controller.Removing.{MayWriteDeleted}
use osls_operator.Controller.Deleting.{DropsOrHolds, reconcile_delete_finalizer}
use osls_operator.Controller.Persist.{summarized, with_deferred_persists}
use osls_operator.Controller.Resolving.{PanicsOrRecords, resolve_version_lem}
use osls_operator.Controller.Version.{resolve_version}
use osls_operator.Controller.Notify.{key_of}
use osls_operator.Tests.Memory.{Cluster}
use osls_operator.Tests.Store.{memory, defaults, live, deleted, installed, start}

abbrev key : ObjectKey
key = key_of live

abbrev live_world : World Cluster
live_world = start (installed live) live

-- The OLSConfig is gone, the CSV is not.
abbrev deleted_world : World Cluster
deleted_world = start (record (installed deleted) { configs = [] }) deleted

reconcile_run_live_example :
    Extends
      (OrPatches (MayWriteLive memory defaults live))
      []
      (reconcile memory defaults key live_world).1.trace
reconcile_run_live_example =
    reconcile_run_live memory defaults live_world key live (installed live) refl refl

reconcile_run_deleted_example :
    Extends
      (OrPatches (MayWriteDeleted memory deleted))
      []
      (reconcile memory defaults key deleted_world).1.trace
reconcile_run_deleted_example =
    reconcile_run_deleted memory defaults deleted_world key deleted deleted_world.cluster
      "2026-01-01" refl refl

reconcile_delete_finalizer_example :
    DropsOrHolds memory deleted_world (reconcile_delete memory deleted_world)
reconcile_delete_finalizer_example = reconcile_delete_finalizer memory deleted_world

with_deferred_persists_example :
    let body = reconcile_body memory defaults live_world in
    let r = with_deferred memory defaults [] (reconcile_body memory defaults) live_world in
    ((body.0 ≡ panics) × (r ≡ (panics, body.1)))
    ⊎ ((r.1.trace ≡ patched_instance (summarized memory defaults [] body.1.instance) ∷ body.1.trace)
        × ((r.0 ≡ body.0)
            ⊎ ((memory.patch_instance
                  (summarized memory defaults [] body.1.instance)
                  body.1.cluster).0
                ≡ panics)))
with_deferred_persists_example =
    with_deferred_persists memory defaults [] (reconcile_body memory defaults) live_world

resolve_version_lem_example : PanicsOrRecords memory live_world (resolve_version memory live_world)
resolve_version_lem_example = resolve_version_lem memory live_world

-- An instance without its finalizer.
abbrev new_instance : OpenStackLightspeed
new_instance = record live { meta = record live.meta { finalizers = [] } }

abbrev new_world : World Cluster
new_world = start (installed new_instance) new_instance

reconcile_run_first_example :
    FirstRun memory defaults (returns tt) new_world (reconcile memory defaults key new_world)
reconcile_run_first_example =
    reconcile_run_first memory defaults new_world key new_instance new_world.cluster refl refl refl

-- The OLSConfig of the instance, which is ready.
abbrev ready_config : Fields
ready_config =
    field "status" (object (field "overallStatus" (str "Ready") end)) (labelled "12345-abc")

abbrev ready_world : World Cluster
ready_world = start (record (installed live) { configs = ready_config ∷ [] }) live

install_and_configure-done_example :
    let i = apply_defaults memory defaults live in
    let v = ensure_ols_operator_installed memory i (record ready_world { instance = i }) in
    FailedOrReady memory defaults v.0 v.1 (install_and_configure memory defaults ready_world).1
unfolding install_and_configure ensure_ols_operator_installed
    osls_operator.OlsInstall.Operator.is_user_installed_ols_operator_mode
    osls_operator.OlsInstall.Csv.get_ols_operator_csv osls_operator.OlsInstall.Csv.find_csv
    osls_operator.OlsInstall.Operator.install_instance_owned_ols_operator
    osls_operator.OlsInstall.Subscription.mutate_subscription
    osls_operator.OlsInstall.Operator.after_save
    osls_operator.OlsInstall.Plan.approve_ols_operator_install_plan
    osls_operator.OlsInstall.Plan.get_ols_operator_install_plan
    osls_operator.OlsInstall.Operator.own_csv
    osls_operator.OlsInstall.Csv.instance_owned_ols_operator_complete
    osls_operator.Controller.Reconcile.mutate_olsconfig
    osls_operator.OlsConfig.Patch.patch_olsconfig osls_operator.OlsConfig.Patch.build_provider
    osls_operator.OlsConfig.Ready.is_olsconfig_ready
install_and_configure-done_example = install_and_configure-done memory defaults ready_world refl
