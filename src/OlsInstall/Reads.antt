-- ===== src/OlsInstall/Reads.antt =====
-- The methods that only read: they record no write and leave the instance in memory alone.
use osls_operator.Base.{arith}
use osls_operator.Api.{OpenStackLightspeed}
use osls_operator.Platform.{Platform}
use osls_operator.Platform.Trace.{Reads}
use osls_operator.OlsInstall.Csv.{get_ols_operator_csv, instance_owned_ols_operator_complete}
use osls_operator.OlsInstall.Plan.{get_ols_operator_install_plan}
use osls_operator.OlsInstall.Operator.{is_user_installed_ols_operator_mode}

module _ (P : Platform) where
  pub get_ols_operator_csv-Reads : Reads (get_ols_operator_csv P)
  unfolding get_ols_operator_csv
  get_ols_operator_csv-Reads w = ground arith

  pub instance_owned_ols_operator_complete-Reads :
      (i : OpenStackLightspeed) → Reads (instance_owned_ols_operator_complete P i)
  unfolding instance_owned_ols_operator_complete
  instance_owned_ols_operator_complete-Reads i w = ground (arith, get_ols_operator_csv-Reads w)

  pub get_ols_operator_install_plan-Reads :
      (i : OpenStackLightspeed) → Reads (get_ols_operator_install_plan P i)
  unfolding get_ols_operator_install_plan
  get_ols_operator_install_plan-Reads i w = ground arith

  pub is_user_installed_ols_operator_mode-Reads :
      (i : OpenStackLightspeed) → Reads (is_user_installed_ols_operator_mode P i)
  unfolding is_user_installed_ols_operator_mode
  is_user_installed_ols_operator_mode-Reads i w = ground (arith, get_ols_operator_csv-Reads w)
