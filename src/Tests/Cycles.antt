-- ===== src/Tests/Cycles.antt =====
-- The theorems on whole runs as runs of the state machine, at clusters in memory.
use osls_operator.Base.{refl, ◌≤◌, some, [], length}
use osls_operator.Platform.Exec.{World}
use osls_operator.Platform.Kinds.{kinds}
use osls_operator.Controller.Notify.{key_of}
use osls_operator.Controller.Delete.{done}
use osls_operator.Controller.Reconcile.{reconcile}
use osls_operator.Cycle.{Runs}
use osls_operator.Cycle.Refines.{reconcile_refines}
use osls_operator.Cycle.Results.{MayReturn, reconcile_bounded, reconcile_returns}
use osls_operator.Tests.Memory.{Cluster}
use osls_operator.Tests.Store.{memory, defaults, live, deleted, installed, start}

-- A live instance whose operator is installed.
abbrev live_world : World Cluster
live_world = start (installed live) live

-- A deleted instance whose OLSConfig is gone.
abbrev deleted_world : World Cluster
deleted_world = start (record (installed deleted) { configs = [] }) deleted

reconcile_refines_example :
    let r = reconcile memory defaults (key_of deleted) deleted_world in
    Runs [] (some "2026-01-01") (kinds r.1.trace) r.0
reconcile_refines_example =
    reconcile_refines memory defaults deleted_world (key_of deleted) deleted deleted_world.cluster
      refl

reconcile_bounded_example : length (reconcile memory defaults (key_of live) live_world).1.trace ≤ 6
reconcile_bounded_example =
    reconcile_bounded memory defaults live_world (key_of live) live (installed live) refl

reconcile_returns_example : MayReturn (some "2026-01-01") done
unfolding reconcile osls_operator.Controller.Version.resolve_version
    osls_operator.OcpVersion.Detect.detect_ocp_version
    osls_operator.OcpVersion.parse_major_minor_version osls_operator.OcpVersion.resolve_ocp_version
    osls_operator.OcpVersion.is_supported_ocp_version
    osls_operator.Controller.Delete.reconcile_delete osls_operator.OlsConfig.Remove.remove_olsconfig
    osls_operator.OlsConfig.Get.get_olsconfig
    osls_operator.OlsInstall.Operator.uninstall_instance_owned_ols_operator
    osls_operator.OlsInstall.Csv.get_ols_operator_csv
    osls_operator.OlsInstall.Operator.uninstall_csv osls_operator.OlsInstall.Csv.find_csv
    osls_operator.OlsInstall.Plan.delete_ols_operator_install_plan
    osls_operator.OlsInstall.Plan.get_ols_operator_install_plan
reconcile_returns_example =
    reconcile_returns memory defaults deleted_world (key_of deleted) deleted deleted_world.cluster
      refl done refl
