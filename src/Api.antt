-- ===== src/Api.antt =====
-- api/v1beta1: the OpenStackLightspeed resource, its defaults and its conditions. Of the types of
-- other packages, the fields that the operator reads or writes.
pub mod Conditions
pub mod Kubernetes
use osls_operator.Base.{String, Option, List, Bool}
use osls_operator.Base.Int.{ℤ, pos}
use Kubernetes.{ObjectMeta}
use Conditions.{Condition}

-- `OpenStackLightspeedContainerImage`
abbrev pub container_image : String
container_image = "quay.io/openstack-lightspeed/rag-content:os-docs-2025.2"

-- `MaxTokensForResponseDefault`
abbrev pub max_tokens_for_response_default : ℤ
max_tokens_for_response_default = pos 2048

-- `OpenStackLightspeedCore`
pub record OpenStackLightspeedCore : Type 0 where
  pub llm_endpoint : String
  pub llm_endpoint_type : String
  pub model_name : String
  pub llm_credentials : String
  pub tls_ca_cert_bundle : String
  pub max_tokens_for_response : ℤ
  pub catalog_source_namespace : String
  pub catalog_source_name : String
  pub llm_project_id : String
  pub llm_deployment_name : String
  pub llm_api_version : String
  pub feedback_disabled : Bool
  pub transcripts_disabled : Bool

-- `OpenStackLightspeedSpec`
pub record OpenStackLightspeedSpec : Type 0 where
  pub core : OpenStackLightspeedCore
  pub open core use *
  pub rag_image : String
  pub enable_ocp_rag : Bool
  pub ocp_rag_version_override : String

-- `OpenStackLightspeedStatus`; a nil list of conditions is the empty one
pub record OpenStackLightspeedStatus : Type 0 where
  pub conditions : List Condition
  pub observed_generation : ℤ
  pub active_ocp_rag_version : String

-- `OpenStackLightspeed`
pub record OpenStackLightspeed : Type 0 where
  pub api_version : String
  pub kind : String
  pub meta : ObjectMeta
  pub spec : OpenStackLightspeedSpec
  pub status : OpenStackLightspeedStatus

-- `OpenStackLightspeedDefaults`
pub record OpenStackLightspeedDefaults : Type 0 where
  pub rag_image_url : String
  pub max_tokens_for_response : ℤ
