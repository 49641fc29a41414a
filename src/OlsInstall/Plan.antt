-- ===== src/OlsInstall/Plan.antt =====
-- ols_install.go: the InstallPlan of the OLS operator.
use osls_operator.Base.{
  String, Bool, true, false, ◌&&◌, ◌||◌, starts_with, Option, none, some, List, [], ◌∷◌, Result, ok,
  err, is_not_found, if◌then◌else◌,
}
use osls_operator.Base.Text.{has_suffix}
use osls_operator.Api.{OpenStackLightspeed}
use osls_operator.Api.Kubernetes.{InstallPlan}
use osls_operator.Platform.{Platform}
use osls_operator.Platform.Exec.{
  Exec, ◌>>=◌, ◌>>◌, pure, fail, lift, call, write, try, updated_install_plan, deleted_install_plan,
}
use osls_operator.OlsInstall.Version.{ols_operator_name, get_recommended_ols_version}

-- The inner loop of `GetOLSOperatorInstallPlan`, over the names of the CSVs of a plan.
unfoldable pub names_ols_csv : String → List String → Bool
unfolding has_suffix
names_ols_csv version [] = false
names_ols_csv version (csv_name ∷ names) =
    (starts_with csv_name ols_operator_name && has_suffix csv_name version)
    || names_ols_csv version names

-- The outer loop: the first plan that names such a CSV.
unfoldable pub find_install_plan : String → List InstallPlan → Option InstallPlan
unfolding names_ols_csv
find_install_plan version [] = none
find_install_plan version (plan ∷ plans) =
    if names_ols_csv version plan.cluster_service_version_names
    then some plan
    else find_install_plan version plans

module _ (P : Platform) where
  -- `GetOLSOperatorInstallPlan`
  unfoldable pub get_ols_operator_install_plan :
      OpenStackLightspeed → Exec P.State (Option InstallPlan)
  unfolding find_install_plan get_recommended_ols_version
  get_ols_operator_install_plan instance = do
    plans ← call (P.list_install_plans instance.meta.namespace)
    version ← lift (get_recommended_ols_version P)
    pure (find_install_plan version plans)

  unfoldable pub approve_plan : Option InstallPlan → Exec P.State Bool
  approve_plan none = pure false
  approve_plan (some plan) = do
    let approved = record plan { approved = true }
    write (updated_install_plan approved) (P.update_install_plan approved)
    pure true

  -- `ApproveOLSOperatorInstallPlan`
  unfoldable pub approve_ols_operator_install_plan : OpenStackLightspeed → Exec P.State Bool
  unfolding approve_plan
  approve_ols_operator_install_plan instance = do
    plan ← get_ols_operator_install_plan instance
    approve_plan plan

  unfoldable pub after_delete_plan : Result (Unit {0}) → Exec P.State Bool
  after_delete_plan (ok _) = pure true
  after_delete_plan (err e) = if is_not_found e then pure true else fail e

  unfoldable pub delete_plan : Option InstallPlan → Exec P.State Bool
  unfolding after_delete_plan
  delete_plan none = pure true
  delete_plan (some plan) = do
    answer ← try (write (deleted_install_plan plan) (P.delete_install_plan plan))
    after_delete_plan answer

  -- `DeleteOLSOperatorInstallPlan`
  unfoldable pub delete_ols_operator_install_plan : OpenStackLightspeed → Exec P.State Bool
  unfolding delete_plan
  delete_ols_operator_install_plan instance = do
    plan ← get_ols_operator_install_plan instance
    delete_plan plan
