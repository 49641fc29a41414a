-- ===== src/OlsInstall/Operator.antt =====
-- ols_install.go: `EnsureOLSOperatorInstalled`, `UninstallInstanceOwnedOLSOperator` and what they
-- are made of.
use osls_operator.Base.{
  String, ◌<>◌, Bool, true, false, not, ◌&&◌, ◌||◌, Option, none, some, Result, ok, err,
  is_not_found, is_conflict, new_error, if◌then◌else◌,
}
use osls_operator.Api.{OpenStackLightspeed}
use osls_operator.Api.Kubernetes.{ClusterServiceVersion, Subscription}
use osls_operator.Shared.{is_owned_by}
use osls_operator.Platform.{Platform, OperationResult, none_done}
use osls_operator.Platform.Exec.{
  Exec, ◌>>=◌, ◌>>◌, pure, fail, run, call, write, try, updated_csv, deleted_csv,
  saved_subscription,
}
use osls_operator.OlsInstall.Version.{get_ols_subscription_name}
use osls_operator.OlsInstall.Csv.{get_ols_operator_csv, instance_owned_ols_operator_complete}
use osls_operator.OlsInstall.Plan.{
  get_ols_operator_install_plan, approve_ols_operator_install_plan,
  delete_ols_operator_install_plan,
}
use osls_operator.OlsInstall.Subscription.{
  instance_owner_reference, new_subscription, mutate_subscription,
}

-- `opResult != controllerutil.OperationResultNone`
abbrev pub changed : OperationResult → Bool
changed none_done = false
changed _ = true

abbrev pub is_none {ℓ} : {A : Type ℓ} → Option A → Bool
is_none none = true
is_none (some _) = false

abbrev pub existing_installation_message : String
existing_installation_message =
    "detected an existing OpenShift Lightspeed operator installation. "
    <> ("Please uninstall OpenShift Lightspeed operator and allow the "
        <> "OpenStack Lightspeed operator to manage its installation automatically")

module _ (P : Platform) (instance : OpenStackLightspeed) where
  -- The subscription as `Get` leaves it, and whether neither it nor the CSV is the instance's.
  unfoldable pub judge_mode : ClusterServiceVersion → Result Subscription → Exec P.State Bool
  unfolding is_owned_by
  judge_mode csv (err e) =
      if is_not_found e
      then pure (
          not (is_owned_by csv.meta instance.meta)
          && not (is_owned_by (new_subscription "" "").meta instance.meta))
      else fail e
  judge_mode csv (ok subscription) = pure (
      not (is_owned_by csv.meta instance.meta) && not (is_owned_by subscription.meta instance.meta))

  unfoldable pub mode_of_csv : Option ClusterServiceVersion → Exec P.State Bool
  unfolding judge_mode get_ols_subscription_name
  mode_of_csv none = pure false
  mode_of_csv (some csv) = do
    name ← run (get_ols_subscription_name instance.meta)
    answer ←
        try
          (call (P.get_subscription (record { namespace = instance.meta.namespace; name = name })))
    judge_mode csv answer

  -- `IsUserInstalledOLSOperatorMode`
  unfoldable pub is_user_installed_ols_operator_mode : Exec P.State Bool
  unfolding mode_of_csv
  is_user_installed_ols_operator_mode = do csv ← get_ols_operator_csv P; mode_of_csv csv

  -- The end of `InstallInstanceOwnedOLSOperator`: a conflict is a reason to wait.
  unfoldable pub after_update_csv : Result (Unit {0}) → Exec P.State Bool
  after_update_csv (err e) = if is_conflict e then pure false else fail e
  after_update_csv (ok _) = instance_owned_ols_operator_complete P instance

  unfoldable pub own_csv : Option ClusterServiceVersion → Exec P.State Bool
  unfolding after_update_csv
  own_csv none = pure false
  own_csv (some csv) = do
    let owned = record csv {
      meta = record csv.meta { owner_references = instance_owner_reference instance };
    }
    answer ← try (write (updated_csv owned) (P.update_csv owned))
    after_update_csv answer

  -- `InstallInstanceOwnedOLSOperator`, once the plan is approved, or is not.
  unfoldable pub after_approve : Bool → Exec P.State Bool
  after_approve false = pure false
  after_approve true = do csv ← get_ols_operator_csv P; own_csv csv

  -- `InstallInstanceOwnedOLSOperator`, once the subscription is saved.
  unfoldable pub after_save : OperationResult → Subscription → Exec P.State Bool
  unfolding after_approve
  after_save op_result saved =
      if changed op_result || is_none saved.install_plan_ref
      then pure false
      else do approved ← approve_ols_operator_install_plan P instance; after_approve approved

  -- `InstallInstanceOwnedOLSOperator`, once the name of the subscription is known.
  unfoldable pub save_subscription : String → Exec P.State Bool
  save_subscription name = do
    let subscription = new_subscription name instance.meta.namespace
    saved ←
        write (saved_subscription subscription)
          (P.create_or_update_subscription subscription (mutate_subscription P instance))
    after_save saved.0 saved.1

  -- `InstallInstanceOwnedOLSOperator`
  unfoldable pub install_instance_owned_ols_operator : Exec P.State Bool
  unfolding save_subscription
  install_instance_owned_ols_operator = do
    name ← run (get_ols_subscription_name instance.meta)
    save_subscription name

  -- `EnsureOLSOperatorInstalled`, once the mode is known.
  unfoldable pub in_mode : Bool → Exec P.State Bool
  in_mode true = fail (new_error existing_installation_message)
  in_mode false = install_instance_owned_ols_operator

  -- `EnsureOLSOperatorInstalled`
  unfoldable pub ensure_ols_operator_installed : Exec P.State Bool
  unfolding in_mode
  ensure_ols_operator_installed = do
    user_installed ← is_user_installed_ols_operator_mode
    in_mode user_installed

  -- After the deletions: is the plan gone too?
  unfoldable pub check_uninstalled : Option ClusterServiceVersion → Exec P.State Bool
  check_uninstalled (some _) = pure false
  check_uninstalled none = do plan ← get_ols_operator_install_plan P instance; pure (is_none plan)

  unfoldable pub uninstall_csv : Option ClusterServiceVersion → Exec P.State Bool
  unfolding check_uninstalled is_owned_by
  uninstall_csv none = pure true
  uninstall_csv (some csv) = if not (is_owned_by csv.meta instance.meta) then pure true else do
    delete_ols_operator_install_plan P instance
    write (deleted_csv csv) (P.delete_csv csv)
    left ← get_ols_operator_csv P
    check_uninstalled left

  -- `UninstallInstanceOwnedOLSOperator`
  unfoldable pub uninstall_instance_owned_ols_operator : Exec P.State Bool
  uninstall_instance_owned_ols_operator = do csv ← get_ols_operator_csv P; uninstall_csv csv
