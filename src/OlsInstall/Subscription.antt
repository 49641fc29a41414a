-- ===== src/OlsInstall/Subscription.antt =====
-- ols_install.go: the Subscription that makes OLM install the OLS operator.
use osls_operator.Base.{
  String, ◌<>◌, ◌==◌, true, Option, none, some, List, [], ◌∷◌, Result, ok, err, if◌then◌else◌,
}
use osls_operator.Base.Int.{pos}
use osls_operator.Api.{OpenStackLightspeed}
use osls_operator.Api.Kubernetes.{ObjectMeta, OwnerReference, Subscription, SubscriptionSpec}
use osls_operator.Platform.{Platform}
use osls_operator.Platform.Exec.{Outcome, returns, fails, panics}
use osls_operator.OlsInstall.Version.{ols_operator_name, get_recommended_ols_version}

-- `instanceOwnerReference` of `InstallInstanceOwnedOLSOperator`
unfoldable pub instance_owner_reference : OpenStackLightspeed → List OwnerReference
instance_owner_reference instance =
    record {
      api_version = instance.api_version;
      kind = instance.kind;
      name = instance.meta.name;
      uid = instance.meta.uid;
      controller = some true;
      block_owner_deletion = some true;
    }
    ∷ []

-- The metadata of a new object that is given only its name and namespace.
abbrev pub new_meta : String → String → ObjectMeta
new_meta name namespace = record {
  name = name;
  namespace = namespace;
  uid = "";
  generation = pos 0;
  deletion_timestamp = none;
  finalizers = [];
  owner_references = [];
}

-- `&operatorsv1alpha1.Subscription{…}` with a name and a namespace
abbrev pub new_subscription : String → String → Subscription
new_subscription name namespace = record {
  meta = new_meta name namespace;
  spec = none;
  install_plan_ref = none;
}

abbrev pub starting_csv_name : String → String
starting_csv_name version = ols_operator_name <> (".v" <> version)

-- The write `subscription.Spec.StartingCSV = …` through the pointer `Spec`.
unfoldable pub write_starting_csv :
    String → Option SubscriptionSpec → Outcome (Option SubscriptionSpec)
write_starting_csv version none = panics
write_starting_csv version (some spec) =
    returns (some (record spec { starting_csv = starting_csv_name version }))

unfoldable pub put_spec : Subscription → Outcome (Option SubscriptionSpec) → Outcome Subscription
put_spec subscription (returns spec) = returns (record subscription { spec = spec })
put_spec subscription (fails e) = fails e
put_spec subscription panics = panics

-- `SetStartingCSV`, given the recommended version
unfoldable pub set_starting_csv_to : Subscription → Result String → Outcome Subscription
unfolding write_starting_csv put_spec
set_starting_csv_to subscription (err e) = fails e
set_starting_csv_to subscription (ok version) =
    if version == ""
    then returns subscription
    else put_spec subscription (write_starting_csv version subscription.spec)

-- `subscription.SetOwnerReferences(…)`, if `SetStartingCSV` went through
unfoldable pub set_owner_references :
    List OwnerReference → Outcome Subscription → Outcome Subscription
set_owner_references refs (returns s) =
    returns (record s { meta = record s.meta { owner_references = refs } })
set_owner_references refs (fails e) = fails e
set_owner_references refs panics = panics

module _ (P : Platform) where
  -- `SetStartingCSV`
  unfoldable pub set_starting_csv : Subscription → Outcome Subscription
  unfolding set_starting_csv_to get_recommended_ols_version
  set_starting_csv subscription = set_starting_csv_to subscription (get_recommended_ols_version P)

  abbrev pub subscription_spec : OpenStackLightspeed → SubscriptionSpec
  subscription_spec instance = record {
    channel = "stable";
    install_plan_approval = P.approval_manual;
    catalog_source = instance.spec.catalog_source_name;
    catalog_source_namespace = instance.spec.catalog_source_namespace;
    package_name = ols_operator_name;
    starting_csv = "";
  }

  -- The mutate function that `InstallInstanceOwnedOLSOperator` hands to `CreateOrUpdate`.
  unfoldable pub mutate_subscription : OpenStackLightspeed → Subscription → Outcome Subscription
  unfolding set_starting_csv set_owner_references instance_owner_reference
  mutate_subscription instance subscription =
      set_owner_references (instance_owner_reference instance)
        (set_starting_csv (record subscription { spec = some (subscription_spec instance) }))
