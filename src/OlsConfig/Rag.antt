-- ===== src/OlsConfig/Rag.antt =====
-- funcs.go: `BuildRAGConfigs`
use osls_operator.Base.{String, ◌==◌, if◌then◌else◌}
use osls_operator.Json.{Value, str, object, Values, nil, cons, end, field}
use osls_operator.Api.{OpenStackLightspeed}
use osls_operator.OcpVersion.{get_ocp_index_name, get_ocp_vector_db_path}

-- `OpenStackLightspeedVectorDBPath`
abbrev pub vector_db_path : String
vector_db_path = "/rag/vector_db/os_product_docs"

abbrev pub openstack_rag : OpenStackLightspeed → Value
openstack_rag instance =
    object
      (field "image" (str instance.spec.rag_image) (field "indexPath" (str vector_db_path) end))

unfoldable pub ocp_rag : OpenStackLightspeed → String → Value
unfolding get_ocp_index_name get_ocp_vector_db_path
ocp_rag instance ocp_version = object (
    field "image" (str instance.spec.rag_image) (
      field "indexPath" (str (get_ocp_vector_db_path ocp_version))
        (field "indexID" (str (get_ocp_index_name ocp_version)) end)))

-- `BuildRAGConfigs`
unfoldable pub build_rag_configs : OpenStackLightspeed → String → Values
unfolding ocp_rag
build_rag_configs instance ocp_version =
    cons (openstack_rag instance)
      (if ocp_version == "" then nil else cons (ocp_rag instance ocp_version) nil)
