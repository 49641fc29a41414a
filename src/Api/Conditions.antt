-- ===== src/Api/Conditions.antt =====
-- api/v1beta1/conditions.go, and the `Condition` of lib-common that it is used with.
use osls_operator.Base.{String, ◌<>◌, List, [], ◌∷◌}

-- `condition.Condition`
pub record Condition : Type 0 where
  pub type : String
  pub status : String
  pub reason : String
  pub severity : String
  pub message : String
  pub last_transition_time : String

-- `OpenStackLightspeedReadyCondition`
abbrev pub openstack_lightspeed_ready_condition : String
openstack_lightspeed_ready_condition = "OpenStackLightspeedReady"

-- `OpenShiftLightspeedOperatorReadyCondition`
abbrev pub openshift_lightspeed_operator_ready_condition : String
openshift_lightspeed_operator_ready_condition = "OpenShiftLightspeedOperatorReady"

-- `OCPRAGCondition`
abbrev pub ocp_rag_condition : String
ocp_rag_condition = "OCPRAGReady"

-- `OpenStackLightspeedReadyInitMessage`
abbrev pub openstack_lightspeed_ready_init_message : String
openstack_lightspeed_ready_init_message = "OpenStack Lightspeed not started"

-- `OpenStackLightspeedReadyMessage`
abbrev pub openstack_lightspeed_ready_message : String
openstack_lightspeed_ready_message = "OpenStack Lightspeed created"

-- `OpenShiftLightspeedOperatorWaiting`
abbrev pub openshift_lightspeed_operator_waiting : String
openshift_lightspeed_operator_waiting = "Waiting for the OpenShift Lightspeed operator to deploy."

-- `OpenShiftLightspeedOperatorReady`
abbrev pub openshift_lightspeed_operator_ready : String
openshift_lightspeed_operator_ready = "OpenShift Lightspeed operator is ready."

-- `OCPRAGDisabledMessage`
abbrev pub ocp_rag_disabled_message : String
ocp_rag_disabled_message = "OCP RAG is disabled"

-- `OCPRAGVersionResolvedMessage` with its argument
abbrev pub ocp_rag_version_resolved_message : String → String
ocp_rag_version_resolved_message version = "OCP RAG version resolved: " <> version

-- `%v` of a `[]string`
abbrev pub join_words : List String → String
join_words [] = ""
join_words (x ∷ []) = x
join_words (x ∷ (y ∷ ys)) = x <> (" " <> join_words (y ∷ ys))

-- `OCPRAGVersionFallbackMessage` with its arguments
abbrev pub ocp_rag_version_fallback_message : String → List String → String
ocp_rag_version_fallback_message version supported =
    "Cluster version "
    <> (version
        <> (" is not explicitly supported. Using 'latest' OCP documentation. Supported versions: ["
            <> (join_words supported <> "]")))

-- `OCPRAGDetectionFailedMessage`
abbrev pub ocp_rag_detection_failed_message : String
ocp_rag_detection_failed_message = "Failed to detect OCP cluster version"

-- `OCPRAGOverrideInvalidMessage`
abbrev pub ocp_rag_override_invalid_message : String
ocp_rag_override_invalid_message = "Invalid OCP RAG version override"
