-- ===== src/Leaving/Laws.antt =====
-- A cluster that holds what a deleted instance owns, then what is left without the finalizer of the
-- OLSConfig, without the OLSConfig, without the plan, and then nothing of the OLS operator: what its API server answers to the calls of a run.
use osls_operator.Base.{String, ◌≡◌, true, none, some, List, [], ◌∷◌, ok, is_not_found}
use osls_operator.Json.{Fields}
use osls_operator.Api.{OpenStackLightspeed}
use osls_operator.Api.Kubernetes.{ObjectMeta, ClusterServiceVersion, InstallPlan}
use osls_operator.Shared.{is_owned_by}
use osls_operator.Platform.{Platform}
use osls_operator.Platform.Trace.{Any}
use osls_operator.OlsConfig.Remove.{mutate_removed}
use osls_operator.OlsInstall.Version.{get_recommended_ols_version}
use osls_operator.OlsInstall.Csv.{find_csv}
use osls_operator.OlsInstall.Plan.{find_install_plan}
use osls_operator.Settled.Rules.{Answers, Leads}
use osls_operator.Settled.Laws.{HasVersion}

module _ (P : Platform) (meta : ObjectMeta) where
  -- The first CSV of the OLS operator is the instance's.
  abbrev pub ListsOwned : List ClusterServiceVersion → Type 0
  ListsOwned csvs =
      (csv : ClusterServiceVersion) × (find_csv csvs ≡ some csv)
      × (is_owned_by csv.meta meta ≡ true)

  -- With the OLSConfig; with it, but for its finalizer; without it; without the plan too; and without the CSV.
  pub record Leaving (Here Unguarded Cleared Unplanned Gone : P.State → Type 0) : Type 0 where
    pub absent :
        (group resource name : String) → is_not_found (P.new_not_found group resource name) ≡ true
    pub version : String
    pub recommended : get_recommended_ols_version P ≡ ok version
    pub here_config : Answers Here Any P.get_config
    pub here_client : Answers Here Any P.new_client
    pub here_version : Answers Here (HasVersion P) (P.get_cluster_version "version")
    pub new_helper : (j : OpenStackLightspeed) → j.meta ≡ meta → Answers Here Any (P.new_helper j)
    pub list_olsconfigs :
        Answers Here
          (λ configs. (config : Fields) × (rest : List Fields) × (configs ≡ config ∷ rest))
          P.list_olsconfigs
    pub create_or_patch_olsconfig :
        (j : OpenStackLightspeed) (config : Fields)
        → j.meta ≡ meta
        → Leads Here Any Unguarded (P.create_or_patch_olsconfig config (mutate_removed P j))
    pub delete_olsconfig :
        (config : Fields) → Leads Unguarded Any Cleared (P.delete_olsconfig config)
    pub no_olsconfigs : Answers Cleared (λ configs. configs ≡ []) P.list_olsconfigs
    pub cleared_config : Answers Cleared Any P.get_config
    pub cleared_client : Answers Cleared Any P.new_client
    pub list_csvs : Answers Cleared ListsOwned (P.list_csvs "")
    pub list_install_plans :
        Answers Cleared
          (λ plans. (plan : InstallPlan) × (find_install_plan version plans ≡ some plan))
          (P.list_install_plans meta.namespace)
    pub delete_install_plan :
        (plan : InstallPlan) → Leads Cleared Any Unplanned (P.delete_install_plan plan)
    pub delete_csv : (csv : ClusterServiceVersion) → Leads Unplanned Any Gone (P.delete_csv csv)
    pub gone_config : Answers Gone Any P.get_config
    pub gone_client : Answers Gone Any P.new_client
    pub no_csvs : Answers Gone (λ csvs. find_csv csvs ≡ none) (P.list_csvs "")
    pub no_install_plans :
        Answers Gone
          (λ plans. find_install_plan version plans ≡ none)
          (P.list_install_plans meta.namespace)
    pub patch_instance : (j : OpenStackLightspeed) → Answers Gone Any (P.patch_instance j)
