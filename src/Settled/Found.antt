-- ===== src/Settled/Found.antt =====
-- `GetOLSOperatorCSV` and `GetOLSOperatorInstallPlan`, where the lists are had.
use osls_operator.Base.{String, ◌≡◌, refl, sym, subst, ap, Option, List, [], Result, ok, err}
use osls_operator.Api.{OpenStackLightspeed}
use osls_operator.Api.Kubernetes.{ObjectMeta, ClusterServiceVersion, InstallPlan}
use osls_operator.Platform.{Platform}
use osls_operator.Platform.Exec.{call, try}
use osls_operator.Platform.Trace.{Any}
use osls_operator.OlsInstall.Version.{get_recommended_ols_version}
use osls_operator.OlsInstall.Csv.{find_csv, select_csv, get_ols_operator_csv}
use osls_operator.OlsInstall.Plan.{find_install_plan, get_ols_operator_install_plan}
use osls_operator.Settled.Rules.{
  Answers, Succeeds, Yields, Yields-call, Goes-pure, Goes-lift, Goes-try, Goes-bind,
}
use osls_operator.Settled.Version.{get_raw_client-Yields}

module _ (P : Platform) (meta : ObjectMeta) (Good : P.State → Type 0) where
  module _ (get_config : Answers Good Any P.get_config) (new_client : Answers Good Any P.new_client)
      {R : List ClusterServiceVersion → Type 0} {T : Option ClusterServiceVersion → Type 0}
      (listed : Answers Good R (P.list_csvs ""))
      (finds : (csvs : List ClusterServiceVersion) → R csvs → T (find_csv csvs)) where
    select_csv-Yields :
        (r : Result (List ClusterServiceVersion))
        → Succeeds R r
        → Yields Good meta [] T (select_csv P r)
    unfolding select_csv
    select_csv-Yields (ok csvs) h = Goes-pure (find_csv csvs) (finds csvs h)
    select_csv-Yields (err e) h = absurd h

    pub get_csv-Yields : Yields Good meta [] T (get_ols_operator_csv P)
    unfolding get_ols_operator_csv
    get_csv-Yields = Goes-bind _ _ (get_raw_client-Yields P meta Good get_config new_client) λ _ _.
        Goes-bind (try (call (P.list_csvs ""))) (select_csv P)
          (Goes-try _ (Yields-call Good meta (P.list_csvs "") listed)) select_csv-Yields

  list_plans-Yields :
      {R : List InstallPlan → Type 0} (namespace : String)
      → Answers Good R (P.list_install_plans meta.namespace)
      → namespace ≡ meta.namespace
      → Yields Good meta [] R (call (P.list_install_plans namespace))
  list_plans-Yields namespace listed same =
      Yields-call Good meta (P.list_install_plans namespace) (rw same listed)

  module _ (version : String) (recommended : get_recommended_ols_version P ≡ ok version)
      {R : List InstallPlan → Type 0} {T : Option InstallPlan → Type 0}
      (listed : Answers Good R (P.list_install_plans meta.namespace))
      (finds : (plans : List InstallPlan) → R plans → T (find_install_plan version plans)) where
    pub get_plan-Yields :
        (i : OpenStackLightspeed)
        → i.meta ≡ meta
        → Yields Good meta [] T (get_ols_operator_install_plan P i)
    unfolding get_ols_operator_install_plan
    get_plan-Yields i same =
        Goes-bind (call (P.list_install_plans i.meta.namespace)) _
          (list_plans-Yields i.meta.namespace listed (ap (λ (m : ObjectMeta). m.namespace) same))
          λ plans h.
            Goes-bind _ _ (Goes-lift {R = λ v. v ≡ version} _ version recommended refl) λ v is.
              Goes-pure _ (subst (λ x. T (find_install_plan x plans)) (sym is) (finds plans h))
