-- ===== src/OlsInstall/Uninstalling.antt =====
-- What an uninstallation may delete, on every branch and whatever the API server answers.
use osls_operator.Base.{◌≡◌, true, Option, none, some, ok, err, Bool-cases, Result, inl, inr}
use osls_operator.Api.{OpenStackLightspeed}
use osls_operator.Api.Kubernetes.{ClusterServiceVersion, InstallPlan}
use osls_operator.Platform.{Platform}
use osls_operator.Platform.Trace.{
  Extends, Ensures, Any, trace_rules, Ensures-bind, Ensures-pure, Ensures-write, Ensures-try,
}
use osls_operator.Shared.{is_owned_by}
use osls_operator.Platform.Exec.{World, Event, deleted_csv, deleted_install_plan}
use osls_operator.OlsInstall.Plan.{after_delete_plan, delete_plan, delete_ols_operator_install_plan}
use osls_operator.OlsInstall.Operator.{
  uninstall_instance_owned_ols_operator, uninstall_csv, check_uninstalled,
}
use osls_operator.OlsInstall.Selected.{
  HasOperatorName, IsOperatorPlan, NamedCsv, NamedPlan, get_csv-Ensures, get_plan-Ensures,
}

module _ (P : Platform) (i : OpenStackLightspeed) where
  -- What an uninstallation may write: it deletes plans of the operator, and CSVs of the operator
  -- that the instance owns.
  abbrev pub MayUninstall : Event → Type 0
  MayUninstall (deleted_csv csv) = HasOperatorName csv × (is_owned_by csv.meta i.meta ≡ true)
  MayUninstall (deleted_install_plan plan) = IsOperatorPlan P plan
  MayUninstall _ = ⊥

  module _ (Q : Event → Type 0) where
    after_delete_plan-Ensures : (r : Result (Unit {0})) → Ensures Q Any (after_delete_plan P r)
    unfolding after_delete_plan
    after_delete_plan-Ensures (ok _) = search trace_rules
    after_delete_plan-Ensures (err e) = search trace_rules

  delete_plan-Ensures :
      (plan : Option InstallPlan) → NamedPlan P plan → Ensures MayUninstall Any (delete_plan P plan)
  unfolding delete_plan
  delete_plan-Ensures none h = search trace_rules
  delete_plan-Ensures (some plan) h =
      Ensures-bind _ _ (Ensures-try _ (Ensures-write _ _ h)) λ r _. after_delete_plan-Ensures _ r

  check_uninstalled-Ensures :
      (csv : Option ClusterServiceVersion) → Ensures MayUninstall Any (check_uninstalled P i csv)
  unfolding check_uninstalled
  check_uninstalled-Ensures none =
      Ensures-bind _ _ (get_plan-Ensures P _ i) λ plan _. Ensures-pure _ tt
  check_uninstalled-Ensures (some csv) = search trace_rules

  uninstall_csv-Ensures :
      (csv : Option ClusterServiceVersion)
      → NamedCsv csv
      → Ensures MayUninstall Any (uninstall_csv P i csv)
  unfolding uninstall_csv delete_ols_operator_install_plan
  uninstall_csv-Ensures none h = search trace_rules
  uninstall_csv-Ensures (some csv) h = elim (Bool-cases (is_owned_by csv.meta i.meta)) [
    | inl owned ↦ rw owned (
        Ensures-bind _ _
          (Ensures-bind _ _ (get_plan-Ensures P _ i) λ plan r. delete_plan-Ensures plan r)
          λ _ _.
            Ensures-bind _ _ (Ensures-write (deleted_csv csv) (P.delete_csv csv) (h, owned)) λ _ _.
              Ensures-bind _ _ (get_csv-Ensures P _) λ left _. check_uninstalled-Ensures left)
    | inr other ↦ rw other (Ensures-pure _ tt)
  ]

  pub uninstall-Ensures : Ensures MayUninstall Any (uninstall_instance_owned_ols_operator P i)
  unfolding uninstall_instance_owned_ols_operator
  uninstall-Ensures = Ensures-bind _ _ (get_csv-Ensures P _) λ csv r. uninstall_csv-Ensures csv r

  -- Uninstalling deletes nothing but InstallPlans that name a CSV of the OLS operator in the
  -- recommended version, and CSVs of the OLS operator that the instance owns, and writes nothing
  -- else, whatever the API server answers.
  pub uninstall_safe :
      (w : World P.State)
      → Extends MayUninstall w.trace (uninstall_instance_owned_ols_operator P i w).1.trace
  uninstall_safe = uninstall-Ensures.writes
