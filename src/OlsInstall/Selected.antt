-- ===== src/OlsInstall/Selected.antt =====
-- The CSV and the InstallPlan that the operator works on: what is known of those it selects.
use osls_operator.Base.{
  String, ◌≡◌, arith, true, Option, none, some, List, [], ◌∷◌, starts_with, ok, err, Option-cases,
  Result, inl, inr,
}
use osls_operator.Api.{OpenStackLightspeed}
use osls_operator.Api.Kubernetes.{ClusterServiceVersion, InstallPlan}
use osls_operator.Platform.{Platform}
use osls_operator.Platform.Trace.{
  Ensures, Any, trace_rules, Ensures-bind, Ensures-call, Ensures-pure, Ensures-lift, Ensures-try,
}
use osls_operator.Shared.{get_raw_client}
use osls_operator.Platform.Exec.{Event}
use osls_operator.OlsInstall.Version.{ols_operator_name, get_recommended_ols_version}
use osls_operator.OlsInstall.Csv.{find_csv, select_csv, get_ols_operator_csv}
use osls_operator.OlsInstall.Plan.{names_ols_csv, find_install_plan, get_ols_operator_install_plan}

abbrev pub HasOperatorName : ClusterServiceVersion → Type 0
HasOperatorName csv = starts_with csv.meta.name ols_operator_name ≡ true

find_csv-HasOperatorName :
    (csvs : List ClusterServiceVersion) (csv : ClusterServiceVersion)
    → find_csv csvs ≡ some csv
    → HasOperatorName csv
unfolding find_csv
find_csv-HasOperatorName [] csv h = cc
find_csv-HasOperatorName (c ∷ cs) csv h = ground (arith, find_csv-HasOperatorName cs csv)

-- The plan names a CSV of the operator in the recommended version.
abbrev pub IsOperatorPlan : Platform → InstallPlan → Type 0
IsOperatorPlan P plan =
    (version : String) × (get_recommended_ols_version P ≡ ok version)
    × (names_ols_csv version plan.cluster_service_version_names ≡ true)

pub find_install_plan-names :
    (version : String) (plans : List InstallPlan) (plan : InstallPlan)
    → find_install_plan version plans ≡ some plan
    → names_ols_csv version plan.cluster_service_version_names ≡ true
unfolding find_install_plan
find_install_plan-names version [] plan h = cc
find_install_plan-names version (p ∷ ps) plan h =
    ground (arith, find_install_plan-names version ps plan)

abbrev pub NamedCsv : Option ClusterServiceVersion → Type 0
NamedCsv none = Unit
NamedCsv (some csv) = HasOperatorName csv

find_csv-NamedCsv : (csvs : List ClusterServiceVersion) → NamedCsv (find_csv csvs)
find_csv-NamedCsv csvs = elim (Option-cases (find_csv csvs)) [
  | inl e ↦ rw e tt
  | inr (csv, e) ↦ rw e (find_csv-HasOperatorName csvs csv e)
]

module _ (P : Platform) where
  abbrev pub NamedPlan : Option InstallPlan → Type 0
  NamedPlan none = Unit
  NamedPlan (some plan) = IsOperatorPlan P plan

  find_install_plan-NamedPlan :
      (version : String) (plans : List InstallPlan)
      → get_recommended_ols_version P ≡ ok version
      → NamedPlan (find_install_plan version plans)
  find_install_plan-NamedPlan version plans h =
      elim (Option-cases (find_install_plan version plans)) [
        | inl e ↦ rw e tt
        | inr (plan, e) ↦ rw e (version, h, find_install_plan-names version plans plan e)
      ]

  module _ (Q : Event → Type 0) where
    select_csv-Ensures :
        (r : Result (List ClusterServiceVersion)) → Ensures Q NamedCsv (select_csv P r)
    unfolding select_csv
    select_csv-Ensures (ok csvs) = search (trace_rules, find_csv-NamedCsv)
    select_csv-Ensures (err e) = search trace_rules

    raw_client-Ensures : Ensures Q Any (get_raw_client P)
    unfolding get_raw_client
    raw_client-Ensures =
        Ensures-bind _ _ (Ensures-call P.get_config) (λ _ _. Ensures-call P.new_client)

    pub get_csv-Ensures : Ensures Q NamedCsv (get_ols_operator_csv P)
    unfolding get_ols_operator_csv
    get_csv-Ensures =
        Ensures-bind _ _ raw_client-Ensures
          λ _ _. Ensures-bind _ _ (Ensures-try _ (Ensures-call _)) λ r _. select_csv-Ensures r

    pub get_plan-Ensures :
        (i : OpenStackLightspeed) → Ensures Q NamedPlan (get_ols_operator_install_plan P i)
    unfolding get_ols_operator_install_plan
    get_plan-Ensures i = Ensures-bind _ _ (Ensures-call _) λ plans _.
        Ensures-bind _ _ (Ensures-lift _)
          λ version e. Ensures-pure _ (find_install_plan-NamedPlan version plans e)
