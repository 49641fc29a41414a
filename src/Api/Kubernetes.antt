-- ===== src/Api/Kubernetes.antt =====
-- Types of k8s.io/apimachinery and of operator-framework/api, as far as the operator reads or
-- writes their fields.
use osls_operator.Base.{String, Option, List, Bool}
use osls_operator.Base.Int.{ℤ}

-- `metav1.OwnerReference`
pub record OwnerReference : Type 0 where
  pub api_version : String
  pub kind : String
  pub name : String
  pub uid : String
  pub controller : Option Bool
  pub block_owner_deletion : Option Bool

-- `metav1.ObjectMeta`; a deletion timestamp of zero is `none`
pub record ObjectMeta : Type 0 where
  pub name : String
  pub namespace : String
  pub uid : String
  pub generation : ℤ
  pub deletion_timestamp : Option String
  pub finalizers : List String
  pub owner_references : List OwnerReference

-- `client.ObjectKey`
pub record ObjectKey : Type 0 where
  pub namespace : String
  pub name : String

-- `operatorsv1alpha1.SubscriptionSpec`
pub record SubscriptionSpec : Type 0 where
  pub channel : String
  pub install_plan_approval : String
  pub catalog_source : String
  pub catalog_source_namespace : String
  pub package_name : String
  pub starting_csv : String

-- `operatorsv1alpha1.Subscription`; `Spec` and `Status.InstallPlanRef` are pointers
pub record Subscription : Type 0 where
  pub meta : ObjectMeta
  pub spec : Option SubscriptionSpec
  pub install_plan_ref : Option String

-- `operatorsv1alpha1.ClusterServiceVersion`
pub record ClusterServiceVersion : Type 0 where
  pub meta : ObjectMeta
  pub phase : String

-- `operatorsv1alpha1.InstallPlan`
pub record InstallPlan : Type 0 where
  pub meta : ObjectMeta
  pub cluster_service_version_names : List String
  pub approved : Bool

-- `ctrl.Result`; a duration in seconds
pub record ReconcileResult : Type 0 where
  pub requeue : Bool
  pub requeue_after : ℤ
