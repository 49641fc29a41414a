-- ===== src/Platform.antt =====
-- What the operator calls and does not implement, as one record of operations: the API server
-- through the clients of controller-runtime, the helpers of controllerutil, the `condition` and
-- `helper` packages of lib-common, the `unstructured` package, and the environment. The theorems
-- hold for every such record; those that need more name it as a hypothesis.
pub mod Exec
pub mod Trace
pub mod Kinds
use osls_operator.Base.{String, Bool, Option, List, ℕ, Error, Result}
use osls_operator.Json.{Fields, Value, Values}
use osls_operator.Api.{OpenStackLightspeed}
use osls_operator.Api.Conditions.{Condition}
use osls_operator.Api.Kubernetes.{ObjectKey, Subscription, ClusterServiceVersion, InstallPlan}
use Exec.{Outcome}

-- k8s.io/apimachinery/pkg/apis/meta/v1/unstructured, and controllerutil on such an object
pub record Unstructured : Type 0 where
  pub set_group_version_kind : Fields → String → String → String → Fields
  pub set_name : Fields → String → Fields
  pub set_nested_field : Fields → Value → List String → Result Fields
  pub set_nested_slice : Fields → Values → List String → Result Fields
  pub nested_string : Fields → List String → Result (Option String)
  pub get_labels : Fields → List (String × String)
  pub set_labels : Fields → List (String × String) → Fields
  pub add_finalizer : Fields → String → Fields × Bool
  pub remove_finalizer : Fields → String → Fields × Bool

-- github.com/openstack-k8s-operators/lib-common/modules/common/condition
pub record ConditionLib : Type 0 where
  pub ready_condition : String
  pub ready_message : String
  pub ready_init_message : String
  pub init_reason : String
  pub error_reason : String
  pub requested_reason : String
  pub severity_info : String
  pub severity_warning : String
  pub severity_error : String
  -- `DeploymentReadyErrorMessage` with its argument
  pub deployment_ready_error_message : String → String
  -- type and message
  pub true_condition : String → String → Condition
  -- type, reason, severity and message
  pub false_condition : String → String → String → String → Condition
  -- type, reason and message
  pub unknown_condition : String → String → String → Condition
  pub create_list : List Condition → List Condition
  pub init : List Condition → List Condition → List Condition
  pub set : List Condition → Condition → List Condition
  pub mark_true : List Condition → String → String → List Condition
  pub mark_unknown : List Condition → String → String → String → List Condition
  pub mirror : List Condition → String → Condition
  pub is_true : List Condition → String → Bool
  pub all_sub_condition_is_true : List Condition → Bool
  -- the conditions, with the times of the saved ones
  pub restore_last_transition_times : List Condition → List Condition → List Condition

-- `controllerutil.OperationResult`; all that the code asks is whether it is `OperationResultNone`
pub data OperationResult : Type 0 where
  none_done created updated : OperationResult

-- A call to the API server: it may fail, and whatever it returns, anything may have changed.
abbrev pub Call : Type 0 → Type 0 → Type 0
Call S A = S → Outcome A × S

pub record Platform : Type 1 where
  pub uns : Unstructured
  pub conditions : ConditionLib
  -- `os.LookupEnv`
  pub lookup_env : String → Option String
  -- `helper.GetFinalizer()`
  pub finalizer : String
  -- controllerutil on the finalizers of a typed object
  pub add_finalizer : List String → String → List String × Bool
  pub remove_finalizer : List String → String → List String × Bool
  -- `k8s_errors.NewNotFound`: group, resource and name
  pub new_not_found : String → String → String → Error
  -- `operatorsv1alpha1.CSVPhaseSucceeded` and `ApprovalManual`
  pub csv_phase_succeeded : String
  pub approval_manual : String
  -- the state of the cluster, and of all that may change it
  pub State : Type 0
  -- `config.GetConfig`, `client.New` and `common_helper.NewHelper`
  pub get_config : Call State Unit
  pub new_client : Call State Unit
  pub new_helper : OpenStackLightspeed → Call State Unit
  -- `rand.Int` below `math.MaxInt64`
  pub rand_int : Call State ℕ
  pub get_instance : ObjectKey → Call State OpenStackLightspeed
  pub patch_instance : OpenStackLightspeed → Call State Unit
  -- in a namespace, or in all that the cache holds
  pub list_instances : Option String → Call State (List OpenStackLightspeed)
  pub get_cluster_version : String → Call State Fields
  pub get_subscription : ObjectKey → Call State Subscription
  -- `controllerutil.CreateOrUpdate` with its mutate function
  pub create_or_update_subscription :
      Subscription
      → (Subscription → Outcome Subscription)
      → Call State (OperationResult × Subscription)
  pub list_csvs : String → Call State (List ClusterServiceVersion)
  pub update_csv : ClusterServiceVersion → Call State Unit
  pub delete_csv : ClusterServiceVersion → Call State Unit
  pub list_install_plans : String → Call State (List InstallPlan)
  pub update_install_plan : InstallPlan → Call State Unit
  pub delete_install_plan : InstallPlan → Call State Unit
  pub list_olsconfigs : Call State (List Fields)
  -- `controllerutil.CreateOrPatch` with its mutate function
  pub create_or_patch_olsconfig :
      Fields → (Fields → Outcome Fields) → Call State (OperationResult × Fields)
  pub update_olsconfig : Fields → Call State Unit
  pub delete_olsconfig : Fields → Call State Unit
