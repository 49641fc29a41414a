-- ===== src/OlsInstall/Framed.antt =====
-- An installation leaves the instance in memory as it is.
use osls_operator.Base.{◌≡◌, refl, arith, Option, none, some}
use osls_operator.Api.{OpenStackLightspeed}
use osls_operator.Api.Kubernetes.{ClusterServiceVersion}
use osls_operator.Platform.{Platform}
use osls_operator.Platform.Exec.{World}
use osls_operator.OlsInstall.Reads.{
  get_ols_operator_install_plan-Reads, instance_owned_ols_operator_complete-Reads,
  get_ols_operator_csv-Reads, is_user_installed_ols_operator_mode-Reads,
}
use osls_operator.OlsInstall.Plan.{approve_ols_operator_install_plan}
use osls_operator.OlsInstall.Operator.{
  is_user_installed_ols_operator_mode, ensure_ols_operator_installed,
  install_instance_owned_ols_operator, own_csv, after_save, after_update_csv,
}

module _ (P : Platform) (i : OpenStackLightspeed) where
  instance-approve :
      (w : World P.State) → (approve_ols_operator_install_plan P i w).1.instance ≡ w.instance
  unfolding approve_ols_operator_install_plan
  instance-approve w = grind (arith, get_ols_operator_install_plan-Reads P)

  instance-own_csv :
      (w : World P.State) (csv : Option ClusterServiceVersion)
      → (own_csv P i csv w).1.instance ≡ w.instance
  unfolding own_csv after_update_csv
  instance-own_csv w none = refl
  instance-own_csv w (some csv) = grind (arith, instance_owned_ols_operator_complete-Reads P i)

  instance-install :
      (w : World P.State) → (install_instance_owned_ols_operator P i w).1.instance ≡ w.instance
  unfolding install_instance_owned_ols_operator after_save
  instance-install w =
      grind (arith, instance-approve, instance-own_csv, get_ols_operator_csv-Reads P)

  pub instance-ensure :
      (w : World P.State) → (ensure_ols_operator_installed P i w).1.instance ≡ w.instance
  unfolding ensure_ols_operator_installed
  instance-ensure w = ground (
    arith,
    is_user_installed_ols_operator_mode-Reads P i w,
    instance-install (is_user_installed_ols_operator_mode P i w).1,
  )
