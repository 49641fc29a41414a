-- ===== src/Tests/Installs.antt =====
-- The theorems on ols_install.go, at clusters in memory.
use osls_operator.Base.{◌≡◌, refl, none, [], ◌∷◌, new_error}
use osls_operator.Platform.Exec.{fails, World}
use osls_operator.Platform.Trace.{Extends}
use osls_operator.OlsInstall.Version.{get_ols_subscription_name}
use osls_operator.OlsInstall.Csv.{find_csv, get_ols_operator_csv}
use osls_operator.OlsInstall.Plan.{find_install_plan}
use osls_operator.OlsInstall.Subscription.{mutate_subscription}
use osls_operator.OlsInstall.Operator.{
  existing_installation_message, ensure_ols_operator_installed,
  uninstall_instance_owned_ols_operator,
}
use osls_operator.OlsInstall.Success.{LastComplete, ensure_success}
use osls_operator.OlsInstall.Installing.{MayInstall, ensure_safe}
use osls_operator.OlsInstall.Uninstalling.{MayUninstall, uninstall_safe}
use osls_operator.OlsInstall.Uninstalled.{Gone, uninstall_true}
use osls_operator.Platform.Kinds.{kinds}
use osls_operator.OlsInstall.Order.{Stages, ensure_order}
use osls_operator.OlsInstall.Saved.{SavesFor, mutate_subscription_lem}
use osls_operator.OlsInstall.Existing.{ensure_existing}
use osls_operator.OlsInstall.Found.{
  FindsFirst, has_operator_name, has_plan_name, find_csv_first, find_install_plan_first,
}
use osls_operator.Tests.Memory.{Cluster}
use osls_operator.Tests.Store.{
  memory, live, owned_csv, existing_csv, plan, subscription, installed, start,
}

abbrev ready_world : World Cluster
ready_world = start (installed live) live

-- A cluster with an installation of somebody else.
abbrev taken_world : World Cluster
taken_world = start (record (installed live) { csvs = existing_csv ∷ []; subscription = none }) live

ensure_success_example :
    LastComplete memory live (ensure_ols_operator_installed memory live ready_world).1.cluster
unfolding ensure_ols_operator_installed
    osls_operator.OlsInstall.Operator.is_user_installed_ols_operator_mode get_ols_operator_csv
    find_csv osls_operator.OlsInstall.Operator.install_instance_owned_ols_operator
    mutate_subscription osls_operator.OlsInstall.Operator.after_save
    osls_operator.OlsInstall.Plan.approve_ols_operator_install_plan
    osls_operator.OlsInstall.Plan.get_ols_operator_install_plan
    osls_operator.OlsInstall.Operator.own_csv
    osls_operator.OlsInstall.Csv.instance_owned_ols_operator_complete
ensure_success_example = ensure_success memory live ready_world refl

ensure_safe_example :
    Extends
      (MayInstall memory live)
      []
      (ensure_ols_operator_installed memory live ready_world).1.trace
ensure_safe_example = ensure_safe memory live ready_world

uninstall_safe_example :
    Extends
      (MayUninstall memory live)
      []
      (uninstall_instance_owned_ols_operator memory live ready_world).1.trace
uninstall_safe_example = uninstall_safe memory live ready_world

ensure_order_example :
    let r = ensure_ols_operator_installed memory live ready_world in Stages [] (kinds r.1.trace) r.0
ensure_order_example = ensure_order memory live ready_world

mutate_subscription_lem_example :
    SavesFor memory live "1.0.0" subscription (mutate_subscription memory live subscription)
mutate_subscription_lem_example = mutate_subscription_lem memory live subscription

ensure_existing_example :
    ((ensure_ols_operator_installed memory live taken_world).0
      ≡ fails (new_error existing_installation_message))
    × ((ensure_ols_operator_installed memory live taken_world).1.trace ≡ [])
unfolding get_ols_subscription_name get_ols_operator_csv find_csv osls_operator.Shared.is_owned_by
ensure_existing_example =
    ensure_existing memory live taken_world taken_world existing_csv "lightspeed-operator-12345"
      refl refl refl refl

find_csv_first_example :
    FindsFirst has_operator_name
      (owned_csv ∷ existing_csv ∷ [])
      (find_csv (owned_csv ∷ existing_csv ∷ []))
find_csv_first_example = find_csv_first (owned_csv ∷ existing_csv ∷ [])

find_install_plan_first_example :
    FindsFirst (has_plan_name "1.0.0") (plan ∷ []) (find_install_plan "1.0.0" (plan ∷ []))
find_install_plan_first_example = find_install_plan_first "1.0.0" (plan ∷ [])

uninstall_true_example :
    Gone memory live ready_world.cluster
      (uninstall_instance_owned_ols_operator memory live ready_world).1.cluster
unfolding uninstall_instance_owned_ols_operator get_ols_operator_csv
    osls_operator.OlsInstall.Operator.uninstall_csv find_csv
    osls_operator.OlsInstall.Plan.delete_ols_operator_install_plan
    osls_operator.OlsInstall.Plan.get_ols_operator_install_plan
uninstall_true_example = uninstall_true memory live ready_world refl
