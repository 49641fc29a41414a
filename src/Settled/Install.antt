-- ===== src/Settled/Install.antt =====
-- `EnsureOLSOperatorInstalled`, where all is in place.
use osls_operator.Base.{
  ◌≡◌, refl, sym, ap, String, ◌∙◌, subst, arith, Bool, true, false, Option, none, some, List, [],
  ◌∷◌, Result, ok, err,
}
use osls_operator.Api.{OpenStackLightspeed, OpenStackLightspeedDefaults}
use osls_operator.Api.Kubernetes.{ObjectMeta, ClusterServiceVersion, Subscription, InstallPlan}
use osls_operator.Shared.{is_owned_by}
use osls_operator.Platform.{Platform, OperationResult}
use osls_operator.Platform.Exec.{run, saved_subscription, updated_csv, updated_install_plan}
use osls_operator.Platform.Kinds.{save_subscription, update_csv, update_plan}
use osls_operator.Platform.Trace.{Any}
use osls_operator.OlsInstall.Version.{get_ols_subscription_name}
use osls_operator.OlsInstall.Csv.{
  find_csv, get_ols_operator_csv, csv_complete, instance_owned_ols_operator_complete,
}
use osls_operator.OlsInstall.Plan.{
  names_ols_csv, find_install_plan, get_ols_operator_install_plan, approve_plan,
  approve_ols_operator_install_plan,
}
use osls_operator.OlsInstall.Selected.{find_install_plan-names}
use osls_operator.OlsInstall.Operator
use osls_operator.OlsInstall.Operator.{
  changed, is_none, judge_mode, mode_of_csv, is_user_installed_ols_operator_mode, after_update_csv,
  own_csv, after_approve, after_save, install_instance_owned_ols_operator, in_mode,
  ensure_ols_operator_installed,
}
use osls_operator.Settled.Rules.{
  Yields, Goes-pure, Goes-run, Yields-call, Yields-write, Goes-try, Goes-bind, Succeeds,
}
use osls_operator.Settled.Found.{get_csv-Yields, get_plan-Yields}
use osls_operator.Settled.Laws.{IsComplete, ListsComplete, HasPlan, Settled}

module _ (P : Platform) (d : OpenStackLightspeedDefaults) (meta : ObjectMeta)
    (Good : P.State → Type 0) (h : Settled P d meta Good) where
  abbrev FoundComplete : Option ClusterServiceVersion → Type 0
  FoundComplete none = ⊥
  FoundComplete (some csv) = IsComplete P d meta csv

  find_csv-FoundComplete :
      (csvs : List ClusterServiceVersion)
      → ListsComplete P d meta csvs
      → FoundComplete (find_csv csvs)
  find_csv-FoundComplete csvs (csv, found, complete) = rw found complete

  csv-Yields : Yields Good meta [] FoundComplete (get_ols_operator_csv P)
  csv-Yields =
      get_csv-Yields P meta Good h.get_config h.new_client h.list_csvs find_csv-FoundComplete

  module _ (i : OpenStackLightspeed) (same : i.meta ≡ meta) where
    is_owned_by-same :
        (csv : ClusterServiceVersion) → IsComplete P d meta csv → is_owned_by csv.meta i.meta ≡ true
    is_owned_by-same csv complete = subst (λ m. is_owned_by csv.meta m ≡ true) (sym same) complete.1

    name-Yields : Yields Good meta [] Any (run (get_ols_subscription_name i.meta))
    name-Yields =
        Goes-run (get_ols_subscription_name i.meta) h.subscription_name
          (ap get_ols_subscription_name same ∙ h.named) tt

    judge_mode-Yields :
        (csv : ClusterServiceVersion) (r : Result Subscription)
        → IsComplete P d meta csv
        → Succeeds Any r
        → Yields Good meta [] (λ b. b ≡ false) (judge_mode P i csv r)
    unfolding judge_mode
    judge_mode-Yields csv (ok s) complete _ = Goes-pure _ (rw (is_owned_by-same csv complete) refl)
    judge_mode-Yields csv (err e) complete failed = absurd failed

    mode_of_csv-Yields :
        (csv : Option ClusterServiceVersion)
        → FoundComplete csv
        → Yields Good meta [] (λ b. b ≡ false) (mode_of_csv P i csv)
    unfolding mode_of_csv
    mode_of_csv-Yields none complete = absurd complete
    mode_of_csv-Yields (some csv) complete =
        Goes-bind (run (get_ols_subscription_name i.meta)) _ name-Yields λ name _.
          Goes-bind _ _ (Goes-try _ (Yields-call Good meta _ (h.get_subscription _)))
            λ r found. judge_mode-Yields csv r complete found

    mode-Yields : Yields Good meta [] (λ b. b ≡ false) (is_user_installed_ols_operator_mode P i)
    unfolding is_user_installed_ols_operator_mode
    mode-Yields = Goes-bind _ _ csv-Yields mode_of_csv-Yields

    csv_complete-true :
        (csv : Option ClusterServiceVersion) → FoundComplete csv → csv_complete P i csv ≡ true
    unfolding csv_complete
    csv_complete-true none complete = absurd complete
    csv_complete-true (some csv) complete = rw (is_owned_by-same csv complete, complete.2) refl

    complete-Yields : Yields Good meta [] (λ b. b ≡ true) (instance_owned_ols_operator_complete P i)
    unfolding instance_owned_ols_operator_complete
    complete-Yields =
        Goes-bind _ _ csv-Yields λ csv complete. Goes-pure _ (csv_complete-true csv complete)

    after_update_csv-Yields :
        (r : Result (Unit {0}))
        → Succeeds Any r
        → Yields Good meta [] (λ b. b ≡ true) (after_update_csv P i r)
    unfolding after_update_csv
    after_update_csv-Yields (ok _) updated = complete-Yields
    after_update_csv-Yields (err e) failed = absurd failed

    own_csv-Yields :
        (csv : Option ClusterServiceVersion)
        → FoundComplete csv
        → Yields Good meta (update_csv ∷ []) (λ b. b ≡ true) (own_csv P i csv)
    unfolding own_csv
    own_csv-Yields none complete = absurd complete
    own_csv-Yields (some csv) complete =
        Goes-bind _ _
          (Goes-try _ (Yields-write Good meta (updated_csv _) _ (h.update_csv i csv same complete)))
          after_update_csv-Yields

    abbrev ListsPlan : List InstallPlan → Type 0
    ListsPlan plans = (plan : InstallPlan) × (find_install_plan h.version plans ≡ some plan)

    abbrev FoundPlan : Option InstallPlan → Type 0
    FoundPlan none = ⊥
    FoundPlan (some plan) = names_ols_csv h.version plan.cluster_service_version_names ≡ true

    find_install_plan-FoundPlan :
        (plans : List InstallPlan) → ListsPlan plans → FoundPlan (find_install_plan h.version plans)
    find_install_plan-FoundPlan plans (plan, found) =
        rw found (find_install_plan-names h.version plans plan found)

    plan-Yields : Yields Good meta [] FoundPlan (get_ols_operator_install_plan P i)
    plan-Yields =
        get_plan-Yields P meta Good h.version h.recommended h.list_install_plans
          find_install_plan-FoundPlan i same

    approve_plan-Yields :
        (found : Option InstallPlan)
        → FoundPlan found
        → Yields Good meta (update_plan ∷ []) (λ b. b ≡ true) (approve_plan P found)
    unfolding approve_plan
    approve_plan-Yields none named = absurd named
    approve_plan-Yields (some plan) named =
        Goes-bind _ _
          (Yields-write Good meta (updated_install_plan _) _ (h.update_install_plan plan named))
          λ _ _. Goes-pure true refl

    approve-Yields :
        Yields Good meta (update_plan ∷ []) (λ b. b ≡ true) (approve_ols_operator_install_plan P i)
    unfolding approve_ols_operator_install_plan
    approve-Yields = Goes-bind _ _ plan-Yields approve_plan-Yields

    after_approve-Yields :
        (approved : Bool)
        → approved ≡ true
        → Yields Good meta (update_csv ∷ []) (λ b. b ≡ true) (after_approve P i approved)
    unfolding after_approve
    after_approve-Yields true e = Goes-bind _ _ csv-Yields own_csv-Yields
    after_approve-Yields false e = absurd (ground arith)

    after_save-Yields :
        (op : OperationResult) (saved : Subscription)
        → HasPlan P d meta (op, saved)
        → Yields Good meta (update_csv ∷ update_plan ∷ []) (λ b. b ≡ true) (after_save P i op saved)
    unfolding after_save
    after_save-Yields op saved (unchanged, planned) =
        rw (unchanged, planned) (Goes-bind _ _ approve-Yields after_approve-Yields)

    save-Yields :
        (name : String)
        → Yields Good meta
            (update_csv ∷ update_plan ∷ save_subscription ∷ [])
            (λ b. b ≡ true)
            (Operator.save_subscription P i name)
    unfolding Operator.save_subscription
    save-Yields name =
        Goes-bind _ _
          (Yields-write Good meta (saved_subscription _) _
            (h.create_or_update_subscription i _ same))
          λ (saved : OperationResult × Subscription) planned.
            after_save-Yields saved.0 saved.1 planned

    install-Yields :
        Yields Good meta
          (update_csv ∷ update_plan ∷ save_subscription ∷ [])
          (λ b. b ≡ true)
          (install_instance_owned_ols_operator P i)
    unfolding install_instance_owned_ols_operator
    install-Yields =
        Goes-bind (run (get_ols_subscription_name i.meta)) (Operator.save_subscription P i)
          name-Yields λ name _. save-Yields name

    in_mode-Yields :
        (user_installed : Bool)
        → user_installed ≡ false
        → Yields Good meta
            (update_csv ∷ update_plan ∷ save_subscription ∷ [])
            (λ b. b ≡ true)
            (in_mode P i user_installed)
    unfolding in_mode
    in_mode-Yields false e = install-Yields
    in_mode-Yields true e = absurd (ground arith)

    -- `EnsureOLSOperatorInstalled` reports success.
    pub ensure-Yields :
        Yields Good meta
          (update_csv ∷ update_plan ∷ save_subscription ∷ [])
          (λ b. b ≡ true)
          (ensure_ols_operator_installed P i)
    unfolding ensure_ols_operator_installed
    ensure-Yields = Goes-bind _ _ mode-Yields in_mode-Yields
