-- ===== src/OlsInstall/Installing.antt =====
-- What an installation may write, and what it has found when it reports success.
use osls_operator.Base.{
  String, ◌≡◌, refl, Bool, true, false, Option, none, some, is_conflict, ok, err, Bool-cases,
  Result, inl, inr, ◌||◌,
}
use osls_operator.Api.{OpenStackLightspeed}
use osls_operator.Api.Kubernetes.{Subscription, ClusterServiceVersion, InstallPlan}
use osls_operator.Platform.{Platform, OperationResult}
use osls_operator.Platform.Trace.{
  Extends, Ensures, Any, trace_rules, Ensures-bind, Ensures-pure, Ensures-write, Ensures-try,
  Ensures-fail, Ensures-run, Ensures-of_Reads, Returns-Any,
}
use osls_operator.Platform.Exec.{
  World, Event, returns, saved_subscription, updated_csv, updated_install_plan,
}
use osls_operator.OlsInstall.Reads.{is_user_installed_ols_operator_mode-Reads}
use osls_operator.OlsInstall.Version.{get_ols_subscription_name}
use osls_operator.OlsInstall.Subscription.{
  mutate_subscription, new_subscription, instance_owner_reference,
}
use osls_operator.OlsInstall.Csv.{instance_owned_ols_operator_complete}
use osls_operator.OlsInstall.Plan.{approve_ols_operator_install_plan, approve_plan}
use osls_operator.OlsInstall.Operator.{
  is_user_installed_ols_operator_mode, ensure_ols_operator_installed,
  install_instance_owned_ols_operator, own_csv, in_mode, changed, is_none, after_approve,
  after_save, after_update_csv,
}
use osls_operator.OlsInstall.Selected.{
  HasOperatorName, IsOperatorPlan, NamedCsv, NamedPlan, get_csv-Ensures, get_plan-Ensures,
}

module _ (P : Platform) (i : OpenStackLightspeed) where
  -- What an installation may write: the instance's subscription, the approval of a plan of the
  -- operator, and the ownership of a CSV of the operator.
  abbrev pub MayInstall : Event → Type 0
  MayInstall (saved_subscription s) =
      (name : String) × (get_ols_subscription_name i.meta ≡ returns name)
      × (s ≡ new_subscription name i.meta.namespace)
  MayInstall (updated_install_plan plan) = IsOperatorPlan P plan × (plan.approved ≡ true)
  MayInstall (updated_csv csv) =
      HasOperatorName csv × (csv.meta.owner_references ≡ instance_owner_reference i)
  MayInstall _ = ⊥

  complete-Ensures : Ensures MayInstall Any (instance_owned_ols_operator_complete P i)
  unfolding instance_owned_ols_operator_complete
  complete-Ensures = Ensures-bind _ _ (get_csv-Ensures P _) λ csv h. Ensures-pure _ tt

  approve_plan-Ensures :
      (plan : Option InstallPlan) → NamedPlan P plan → Ensures MayInstall Any (approve_plan P plan)
  unfolding approve_plan
  approve_plan-Ensures none h = search trace_rules
  approve_plan-Ensures (some plan) h =
      let approved = record plan { approved = true } in
      Ensures-bind _ _
        (Ensures-write (updated_install_plan approved) (P.update_install_plan approved) (h, refl))
        λ _ _. Ensures-pure _ tt

  approve-Ensures : Ensures MayInstall Any (approve_ols_operator_install_plan P i)
  unfolding approve_ols_operator_install_plan
  approve-Ensures = Ensures-bind _ _ (get_plan-Ensures P _ i) approve_plan-Ensures

  after_update_csv-Ensures :
      (r : Result (Unit {0})) → Ensures MayInstall Any (after_update_csv P i r)
  unfolding after_update_csv
  after_update_csv-Ensures (ok _) = complete-Ensures
  after_update_csv-Ensures (err e) = elim (Bool-cases (is_conflict e)) [
    | inl wait ↦ rw wait (Ensures-pure _ tt)
    | inr other ↦ rw other (Ensures-fail e)
  ]

  own_csv-Ensures :
      (csv : Option ClusterServiceVersion) → NamedCsv csv → Ensures MayInstall Any (own_csv P i csv)
  unfolding own_csv
  own_csv-Ensures none h = Ensures-pure _ tt
  own_csv-Ensures (some csv) h =
      let owned = record csv {
        meta = record csv.meta { owner_references = instance_owner_reference i };
      } in
      Ensures-bind _ _
        (Ensures-try _ (Ensures-write (updated_csv owned) (P.update_csv owned) (h, refl)))
        λ r _. after_update_csv-Ensures r

  after_approve-Ensures : (approved : Bool) → Ensures MayInstall Any (after_approve P i approved)
  unfolding after_approve
  after_approve-Ensures false = Ensures-pure _ tt
  after_approve-Ensures true = Ensures-bind _ _ (get_csv-Ensures P _) own_csv-Ensures

  after_save-Ensures :
      (op : OperationResult) (saved : Subscription)
      → Ensures MayInstall Any (after_save P i op saved)
  unfolding after_save
  after_save-Ensures op saved = elim (Bool-cases (changed op || is_none saved.install_plan_ref)) [
    | inl wait ↦ rw wait (Ensures-pure _ tt)
    | inr ready ↦
        rw ready (Ensures-bind _ _ approve-Ensures λ approved _. after_approve-Ensures approved)
  ]

  install-Ensures : Ensures MayInstall Any (install_instance_owned_ols_operator P i)
  unfolding install_instance_owned_ols_operator
  install-Ensures = Ensures-bind _ _ (Ensures-run _) λ name e.
      Ensures-bind _ _
        (Ensures-write (saved_subscription (new_subscription name i.meta.namespace))
          (P.create_or_update_subscription (new_subscription name i.meta.namespace)
            (mutate_subscription P i))
          (name, e, refl))
        λ saved _. after_save-Ensures saved.0 saved.1

  user_installed-Ensures : Ensures MayInstall Any (is_user_installed_ols_operator_mode P i)
  user_installed-Ensures =
      Ensures-of_Reads _ (is_user_installed_ols_operator_mode-Reads P i) (λ w. Returns-Any _)

  in_mode-Ensures : (user_installed : Bool) → Ensures MayInstall Any (in_mode P i user_installed)
  unfolding in_mode
  in_mode-Ensures true = Ensures-fail _
  in_mode-Ensures false = install-Ensures

  pub ensure-Ensures : Ensures MayInstall Any (ensure_ols_operator_installed P i)
  unfolding ensure_ols_operator_installed
  ensure-Ensures = Ensures-bind _ _ user_installed-Ensures λ user _. in_mode-Ensures user

  -- An installation writes nothing but the instance's own subscription, the approval of an
  -- InstallPlan that names a CSV of the OLS operator in the recommended version, and the
  -- instance's ownership of a CSV of the OLS operator, whatever the API server answers.
  pub ensure_safe :
      (w : World P.State)
      → Extends (MayInstall) w.trace (ensure_ols_operator_installed P i w).1.trace
  ensure_safe = ensure-Ensures.writes
