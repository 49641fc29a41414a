-- ===== src/Settled/Laws.antt =====
-- A cluster in which all is in place for an instance: what its API server and the environment
-- answer to the calls of a run.
use osls_operator.Base.{String, ◌≡◌, ◌==◌, true, false, some, List, [], ◌∷◌, ok}
use osls_operator.Json.{Fields}
use osls_operator.Api.{OpenStackLightspeed, OpenStackLightspeedDefaults}
use osls_operator.Api.Kubernetes.{
  ObjectKey, ObjectMeta, Subscription, ClusterServiceVersion, InstallPlan,
}
use osls_operator.Shared.{is_owned_by}
use osls_operator.Platform.{Platform, OperationResult}
use osls_operator.Platform.Exec.{returns}
use osls_operator.Platform.Trace.{Any}
use osls_operator.OcpVersion.{parse_major_minor_version}
use osls_operator.OlsInstall.Version.{get_recommended_ols_version, get_ols_subscription_name}
use osls_operator.OlsInstall.Csv.{find_csv}
use osls_operator.OlsInstall.Plan.{names_ols_csv, find_install_plan}
use osls_operator.OlsInstall.Selected.{HasOperatorName}
use osls_operator.OlsInstall.Subscription.{instance_owner_reference, mutate_subscription}
use osls_operator.OlsInstall.Operator.{changed, is_none}
use osls_operator.Controller.Reconcile.{new_olsconfig, mutate_olsconfig}
use osls_operator.Settled.Rules.{Answers}

-- The ClusterVersion has a version that parses.
abbrev pub HasVersion : Platform → Fields → Type 0
HasVersion P cluster_version =
    (text : String) × (version : String) × (P.uns.nested_string cluster_version
        ("status" ∷ "desired" ∷ "version" ∷ [])
      ≡ ok (some text))
    × (parse_major_minor_version text ≡ ok version)

module _ (P : Platform) (d : OpenStackLightspeedDefaults) (meta : ObjectMeta) where
  -- The CSV has the operator's name, it is the instance's, and it has succeeded.
  abbrev pub IsComplete : ClusterServiceVersion → Type 0
  IsComplete csv =
      HasOperatorName csv
      × (is_owned_by csv.meta meta ≡ true)
      × ((csv.phase == P.csv_phase_succeeded) ≡ true)

  -- The first OLSConfig reports that it is ready.
  abbrev pub FirstReady : List Fields → Type 0
  FirstReady configs =
      (config : Fields) × (rest : List Fields) × (configs ≡ config ∷ rest)
      × (P.uns.nested_string config ("status" ∷ "overallStatus" ∷ []) ≡ ok (some "Ready"))

  abbrev pub ListsComplete : List ClusterServiceVersion → Type 0
  ListsComplete csvs = (csv : ClusterServiceVersion) × (find_csv csvs ≡ some csv) × IsComplete csv

  -- The Subscription is as it should be, and OLM has made a plan for it.
  abbrev pub HasPlan : OperationResult × Subscription → Type 0
  HasPlan (op, saved) = (changed op ≡ false) × (is_none saved.install_plan_ref ≡ false)

  -- `Good` holds of the cluster now, and every call of a run is answered well in a good cluster and
  -- leaves it good.
  pub record Settled (Good : P.State → Type 0) : Type 0 where
    pub finalizer_there : P.add_finalizer meta.finalizers P.finalizer ≡ (meta.finalizers, false)
    pub subscription_name : String
    pub named : get_ols_subscription_name meta ≡ returns subscription_name
    pub version : String
    pub recommended : get_recommended_ols_version P ≡ ok version
    pub get_config : Answers Good Any P.get_config
    pub new_client : Answers Good Any P.new_client
    pub new_helper : (j : OpenStackLightspeed) → j.meta ≡ meta → Answers Good Any (P.new_helper j)
    pub get_cluster_version : Answers Good (HasVersion P) (P.get_cluster_version "version")
    pub list_csvs : Answers Good ListsComplete (P.list_csvs "")
    pub get_subscription : (key : ObjectKey) → Answers Good Any (P.get_subscription key)
    pub create_or_update_subscription :
        (j : OpenStackLightspeed) (s : Subscription)
        → j.meta ≡ meta
        → Answers Good HasPlan (P.create_or_update_subscription s (mutate_subscription P j))
    pub list_install_plans :
        Answers Good
          (λ plans. (plan : InstallPlan) × (find_install_plan version plans ≡ some plan))
          (P.list_install_plans meta.namespace)
    pub update_install_plan :
        (plan : InstallPlan)
        → names_ols_csv version plan.cluster_service_version_names ≡ true
        → Answers Good Any (P.update_install_plan (record plan { approved = true }))
    pub update_csv :
        (j : OpenStackLightspeed) (csv : ClusterServiceVersion)
        → j.meta ≡ meta
        → IsComplete csv
        → Answers Good Any (
            P.update_csv (record csv {
              meta = record csv.meta { owner_references = instance_owner_reference j };
            }))
    pub create_or_patch_olsconfig :
        (j : OpenStackLightspeed)
        → j.meta ≡ meta
        → Answers Good Any
            (P.create_or_patch_olsconfig (new_olsconfig P d) (mutate_olsconfig P d j))
    pub list_olsconfigs : Answers Good FirstReady P.list_olsconfigs
    pub patch_instance :
        (j : OpenStackLightspeed) → j.meta ≡ meta → Answers Good Any (P.patch_instance j)
