-- ===== src/OlsInstall/Order.antt =====
-- In which order an installation writes, where it may stop, and with which result.
use osls_operator.Base.{◌≡◌, arith, ◌⊎◌, ◌≢◌, Bool, true, false, Option, none, some, List, ◌∷◌}
use osls_operator.Api.{OpenStackLightspeed}
use osls_operator.Api.Kubernetes.{ClusterServiceVersion}
use osls_operator.Platform.{Platform}
use osls_operator.Platform.Exec.{World, Outcome, returns}
use osls_operator.Platform.Kinds.{Kind, kinds, save_subscription, update_csv, update_plan}
use osls_operator.OlsInstall.Reads.{
  get_ols_operator_install_plan-Reads, instance_owned_ols_operator_complete-Reads,
  get_ols_operator_csv-Reads, is_user_installed_ols_operator_mode-Reads,
}
use osls_operator.OlsInstall.Plan.{approve_ols_operator_install_plan}
use osls_operator.OlsInstall.Operator.{
  is_user_installed_ols_operator_mode, ensure_ols_operator_installed,
  install_instance_owned_ols_operator, own_csv, after_save, after_update_csv,
}

-- The stages of an installation as equations, for the tactics.
abbrev pub Stages : List Kind → List Kind → Outcome Bool → Type 0
Stages before t o =
    ((t ≡ before) × (o ≢ returns true) × (o ≢ returns false))
    ⊎ (((t ≡ save_subscription ∷ before) × (o ≢ returns true))
        ⊎ (((t ≡ update_plan ∷ save_subscription ∷ before) × (o ≢ returns true))
            ⊎ (t ≡ update_csv ∷ update_plan ∷ save_subscription ∷ before)))

module _ (P : Platform) (i : OpenStackLightspeed) where
  approve_order :
      (w : World P.State)
      → let r = approve_ols_operator_install_plan P i w in
        ((kinds r.1.trace ≡ kinds w.trace) × (r.0 ≢ returns true))
        ⊎ (kinds r.1.trace ≡ update_plan ∷ kinds w.trace)
  unfolding approve_ols_operator_install_plan
  approve_order w = grind (arith, get_ols_operator_install_plan-Reads P)

  own_csv_order :
      (w : World P.State) (csv : Option ClusterServiceVersion)
      → let r = own_csv P i csv w in
        ((kinds r.1.trace ≡ kinds w.trace) × (r.0 ≢ returns true))
        ⊎ (kinds r.1.trace ≡ update_csv ∷ kinds w.trace)
  unfolding own_csv after_update_csv
  own_csv_order w none = ground arith
  own_csv_order w (some csv) = grind (arith, instance_owned_ols_operator_complete-Reads P i)

  install_order :
      (w : World P.State)
      → let r = install_instance_owned_ols_operator P i w in
        Stages (kinds w.trace) (kinds r.1.trace) r.0
  unfolding install_instance_owned_ols_operator after_save
  install_order w = grind (arith, approve_order, own_csv_order, get_ols_operator_csv-Reads P)

  -- An installation saves the subscription first, then approves the plan, then takes the CSV, each
  -- at most once and none without those before it, and writes nothing else. It neither reports
  -- success nor that it is in progress without a write, and it reports success only once it has
  -- written all three.
  pub ensure_order :
      (w : World P.State)
      → let r = ensure_ols_operator_installed P i w in Stages (kinds w.trace) (kinds r.1.trace) r.0
  unfolding ensure_ols_operator_installed
  ensure_order w = ground (
    arith,
    is_user_installed_ols_operator_mode-Reads P i w,
    install_order (is_user_installed_ols_operator_mode P i w).1,
  )
