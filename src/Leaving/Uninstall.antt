-- ===== src/Leaving/Uninstall.antt =====
-- `UninstallInstanceOwnedOLSOperator`, where every deletion takes effect.
use osls_operator.Base.{
  ◌≡◌, refl, sym, subst, arith, true, Option, none, some, List, [], ◌∷◌, Result, ok, err,
}
use osls_operator.Api.{OpenStackLightspeed}
use osls_operator.Api.Kubernetes.{ObjectMeta, ClusterServiceVersion, InstallPlan}
use osls_operator.Shared.{is_owned_by}
use osls_operator.Platform.{Platform}
use osls_operator.Platform.Exec.{write, deleted_csv, deleted_install_plan}
use osls_operator.Platform.Kinds.{delete_plan, delete_csv}
use osls_operator.Platform.Trace.{Any}
use osls_operator.OlsInstall.Csv.{find_csv}
use osls_operator.OlsInstall.Plan
use osls_operator.OlsInstall.Plan.{
  find_install_plan, get_ols_operator_install_plan, after_delete_plan,
  delete_ols_operator_install_plan,
}
use osls_operator.OlsInstall.Operator.{
  is_none, check_uninstalled, uninstall_csv, uninstall_instance_owned_ols_operator,
}
use osls_operator.Settled.Rules.{
  At, Goes, Yields, Goes-pure, Goes-try, Goes-bind, Goes-write, Succeeds, Leads-Replies,
}
use osls_operator.Settled.Found.{get_csv-Yields, get_plan-Yields}
use osls_operator.Leaving.Laws.{ListsOwned, Leaving}

module _ (P : Platform) (meta : ObjectMeta)
    (Here Unguarded Cleared Unplanned Gone : P.State → Type 0)
    (h : Leaving P meta Here Unguarded Cleared Unplanned Gone) where
  module _ (i : OpenStackLightspeed) (same : i.meta ≡ meta) where
    abbrev Found : {A : Type 0} → Option A → Type 0
    Found none = ⊥
    Found (some _) = Unit

    abbrev FoundOwned : Option ClusterServiceVersion → Type 0
    FoundOwned none = ⊥
    FoundOwned (some csv) = is_owned_by csv.meta meta ≡ true

    csvs-FoundOwned :
        (csvs : List ClusterServiceVersion) → ListsOwned P meta csvs → FoundOwned (find_csv csvs)
    csvs-FoundOwned csvs (csv, found, owned) = rw found owned

    plans-Found :
        (plans : List InstallPlan)
        → (plan : InstallPlan) × (find_install_plan h.version plans ≡ some plan)
        → Found (find_install_plan h.version plans)
    plans-Found plans (plan, found) = rw found tt

    after_delete_plan-Yields :
        (r : Result (Unit {0}))
        → Succeeds Any r
        → Yields Unplanned meta [] Any (after_delete_plan P r)
    unfolding after_delete_plan
    after_delete_plan-Yields (ok _) _ = Goes-pure true tt
    after_delete_plan-Yields (err e) failed = absurd failed

    delete_plan-Yields :
        (plan : Option InstallPlan)
        → Found plan
        → Goes
            (At Cleared meta)
            (delete_plan ∷ [])
            Any
            (At Unplanned meta)
            (Plan.delete_plan P plan)
    unfolding Plan.delete_plan
    delete_plan-Yields none found = absurd found
    delete_plan-Yields (some plan) _ =
        Goes-bind _ _
          (Goes-try _ (
            Goes-write (deleted_install_plan plan) (P.delete_install_plan plan) (
              Leads-Replies Cleared Unplanned meta (P.delete_install_plan plan)
                (h.delete_install_plan plan))))
          after_delete_plan-Yields

    delete_ols_plan-Yields :
        Goes
          (At Cleared meta)
          (delete_plan ∷ [])
          Any
          (At Unplanned meta)
          (delete_ols_operator_install_plan P i)
    unfolding delete_ols_operator_install_plan
    delete_ols_plan-Yields =
        Goes-bind _ _
          (get_plan-Yields P meta Cleared h.version h.recommended h.list_install_plans plans-Found i
            same)
          delete_plan-Yields

    check_uninstalled-Yields :
        (csv : Option ClusterServiceVersion)
        → csv ≡ none
        → Yields Gone meta [] (λ b. b ≡ true) (check_uninstalled P i csv)
    unfolding check_uninstalled
    check_uninstalled-Yields none e =
        Goes-bind _ _
          (get_plan-Yields P meta Gone h.version h.recommended {T = λ x. x ≡ none}
            h.no_install_plans (λ plans none_left. none_left) i same)
          λ plan gone. Goes-pure (is_none plan) (rw gone refl)
    check_uninstalled-Yields (some csv) e = absurd (ground arith)

    uninstall_csv-Goes :
        (csv : Option ClusterServiceVersion)
        → FoundOwned csv
        → Goes
            (At Cleared meta)
            (delete_csv ∷ delete_plan ∷ [])
            (λ b. b ≡ true)
            (At Gone meta)
            (uninstall_csv P i csv)
    unfolding uninstall_csv
    uninstall_csv-Goes none owned = absurd owned
    uninstall_csv-Goes (some csv) owned =
        let mine : is_owned_by csv.meta i.meta ≡ true =
          subst (λ m. is_owned_by csv.meta m ≡ true) (sym same) owned in
        rw mine (
          Goes-bind _ _ delete_ols_plan-Yields λ _ _.
            Goes-bind (write (deleted_csv csv) (P.delete_csv csv)) _
              (Goes-write (deleted_csv csv) (P.delete_csv csv)
                (Leads-Replies Unplanned Gone meta (P.delete_csv csv) (h.delete_csv csv)))
              λ _ _.
                Goes-bind _ _
                  (get_csv-Yields P meta Gone h.gone_config h.gone_client {T = λ x. x ≡ none}
                    h.no_csvs λ csvs none_left. none_left)
                  check_uninstalled-Yields)

    -- `UninstallInstanceOwnedOLSOperator` reports that the OLS operator is gone.
    pub uninstall-Goes :
        Goes
          (At Cleared meta)
          (delete_csv ∷ delete_plan ∷ [])
          (λ b. b ≡ true)
          (At Gone meta)
          (uninstall_instance_owned_ols_operator P i)
    unfolding uninstall_instance_owned_ols_operator
    uninstall-Goes =
        Goes-bind _ _
          (get_csv-Yields P meta Cleared h.cleared_config h.cleared_client h.list_csvs
            csvs-FoundOwned)
          uninstall_csv-Goes
