-- ===== src/Tests/Memory.antt =====
-- A small cluster in memory, as the platform of the tests.
use osls_operator.Base.{
  String, ◌<>◌, ◌==◌, Bool, true, false, ◌&&◌, Option, none, some, List, [], ◌∷◌, Error, not_found,
  if◌then◌else◌,
}
use osls_operator.Json.{str, object, Fields, end, field}
use osls_operator.Api.{OpenStackLightspeed}
use osls_operator.Api.Conditions.{Condition}
use osls_operator.Api.Kubernetes.{Subscription, ClusterServiceVersion, InstallPlan}
use osls_operator.Platform.{ConditionLib, OperationResult, none_done, created, Call}
use osls_operator.Platform.Exec.{Outcome, returns, fails, panics}

pub record Cluster : Type 0 where
  pub stored : OpenStackLightspeed
  pub subscription : Option Subscription
  pub csvs : List ClusterServiceVersion
  pub plans : List InstallPlan
  pub configs : List Fields

abbrev pub absent : Error
absent = record { reason = not_found; message = "not found" }

abbrev pub after : {A B : Type 0} → Outcome A → Cluster → (A → B × Cluster) → Outcome B × Cluster
after (returns a) s k = let (b, t) = k a in (returns b, t)
after (fails e) s k = (fails e, s)
after panics s k = (panics, s)

abbrev pub rest : {A : Type 0} → List A → List A
rest [] = []
rest (_ ∷ xs) = xs

abbrev condition_of : String → String → String → String → String → Condition
condition_of type status reason severity message = record {
  type = type;
  status = status;
  reason = reason;
  severity = severity;
  message = message;
  last_transition_time = "";
}

abbrev pub set_in : List Condition → Condition → List Condition
set_in [] c = c ∷ []
set_in (d ∷ ds) c = if d.type == c.type then c ∷ ds else d ∷ set_in ds c

abbrev pub is_true_in : List Condition → String → Bool
is_true_in [] type = false
is_true_in (c ∷ cs) type = if c.type == type then c.status == "True" else is_true_in cs type

abbrev all_true : List Condition → Bool
all_true [] = true
all_true (c ∷ cs) = if c.status == "True" then all_true cs else (c.type == "Ready" && all_true cs)

abbrev pub conditions_lib : ConditionLib
conditions_lib = record {
  ready_condition = "Ready";
  ready_message = "Setup complete";
  ready_init_message = "Setup started";
  init_reason = "Init";
  error_reason = "Error";
  requested_reason = "Requested";
  severity_info = "Info";
  severity_warning = "Warning";
  severity_error = "Error";
  deployment_ready_error_message = λ message. "Deployment error occurred " <> message;
  true_condition = λ type message. condition_of type "True" "Ready" "" message;
  false_condition =
      λ type reason severity message. condition_of type "False" reason severity message;
  unknown_condition = λ type reason message. condition_of type "Unknown" reason "" message;
  create_list = λ cs. cs;
  init = λ old new. new;
  set = set_in;
  mark_true = λ cs type message. set_in cs (condition_of type "True" "Ready" "" message);
  mark_unknown =
      λ cs type reason message. set_in cs (condition_of type "Unknown" reason "" message);
  mirror = λ cs type. condition_of type "False" "Error" "" "";
  is_true = is_true_in;
  all_sub_condition_is_true = all_true;
  restore_last_transition_times = λ cs saved. cs;
}

abbrev pub find_subscription : Option Subscription → Outcome Subscription
find_subscription none = fails absent
find_subscription (some s) = returns s

abbrev pub save_subscription_in :
    Cluster
    → Subscription
    → (Subscription → Outcome Subscription)
    → Option Subscription
    → Outcome (OperationResult × Subscription) × Cluster
save_subscription_in c new f none =
    after (f new) c λ s. ((created, s), record c { subscription = some s })
save_subscription_in c new f (some old) =
    after (f old) c λ s. ((none_done, s), record c { subscription = some s })

abbrev pub save_config_in :
    Cluster
    → Fields
    → (Fields → Outcome Fields)
    → List Fields
    → Outcome (OperationResult × Fields) × Cluster
save_config_in c new f [] = after (f new) c λ o. ((created, o), record c { configs = o ∷ [] })
save_config_in c new f (old ∷ others) =
    after (f old) c λ o. ((none_done, o), record c { configs = o ∷ others })

abbrev pub environment : String → Option String
environment name =
    if name == "OPENSHIFT_LIGHTSPEED_OPERATOR_VERSION"
    then some "1.0.0"
    else if name == "WATCH_NAMESPACE"
    then some "openstack,lightspeed"
    else none

abbrev pub has_text : String → List String → Bool
has_text f [] = false
has_text f (g ∷ gs) = if g == f then true else has_text f gs

abbrev pub drop_text : String → List String → List String
drop_text f [] = []
drop_text f (g ∷ gs) = if g == f then drop_text f gs else g ∷ drop_text f gs

abbrev pub answers : {A : Type 0} → A → Call Cluster A
answers a c = (returns a, c)

abbrev pub cluster_version : Fields
cluster_version =
    field "status" (object (field "desired" (object (field "version" (str "4.18.3") end)) end)) end
