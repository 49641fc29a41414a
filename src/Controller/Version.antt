-- ===== src/Controller/Version.antt =====
-- openstacklightspeed_controller.go: `resolveOCPVersion`
use osls_operator.Base.{String, ◌<>◌, Bool, true, false, Error, Result, ok, err}
use osls_operator.Api.{OpenStackLightspeed}
use osls_operator.Api.Conditions.{
  Condition, ocp_rag_condition, ocp_rag_disabled_message, ocp_rag_detection_failed_message,
  ocp_rag_override_invalid_message, ocp_rag_version_fallback_message,
  ocp_rag_version_resolved_message,
}
use osls_operator.Platform.{Platform}
use osls_operator.Platform.Exec.{Exec, ◌>>=◌, ◌>>◌, pure, try, get_instance}
use osls_operator.OcpVersion.{resolve_ocp_version, supported_ocp_versions}
use osls_operator.OcpVersion.Detect.{detect_ocp_version}
use osls_operator.Controller.Status.{set_condition, mark_true, set_active_version}

module _ (P : Platform) where
  -- A false condition of severity error, whose message is then replaced.
  abbrev pub ocp_rag_error : String → Error → Condition
  ocp_rag_error text e =
      record (P.conditions.false_condition ocp_rag_condition P.conditions.error_reason
        P.conditions.severity_error text) { message = text <> (": " <> e.message) }

  abbrev pub ocp_rag_resolved : String → Bool → String → Condition
  ocp_rag_resolved detected true active =
      record (P.conditions.true_condition ocp_rag_condition "Fallback") {
        message = ocp_rag_version_fallback_message detected supported_ocp_versions;
      }
  ocp_rag_resolved detected false active =
      record (P.conditions.true_condition ocp_rag_condition "Resolved") {
        message = ocp_rag_version_resolved_message active;
      }

  unfoldable pub on_resolved : String → Result (String × Bool) → Exec P.State String
  on_resolved detected (err e) = do
    set_condition P (ocp_rag_error ocp_rag_override_invalid_message e)
    set_active_version P ""
    pure ""
  on_resolved detected (ok (active, is_fallback)) = do
    set_active_version P active
    set_condition P (ocp_rag_resolved detected is_fallback active)
    pure active

  unfoldable pub on_detected : OpenStackLightspeed → Result String → Exec P.State String
  unfolding on_resolved
  on_detected instance (err e) = do
    set_condition P (ocp_rag_error ocp_rag_detection_failed_message e)
    set_active_version P ""
    pure ""
  on_detected instance (ok detected) = on_resolved detected (
      resolve_ocp_version detected instance.spec.ocp_rag_version_override
        instance.spec.enable_ocp_rag)

  unfoldable pub detect_and_resolve : OpenStackLightspeed → Bool → Exec P.State String
  unfolding on_detected
  detect_and_resolve instance false = do
    mark_true P ocp_rag_condition ocp_rag_disabled_message
    set_active_version P ""
    pure ""
  detect_and_resolve instance true = do
    answer ← try (detect_ocp_version P)
    on_detected instance answer

  -- `resolveOCPVersion`
  unfoldable pub resolve_version : Exec P.State String
  unfolding detect_and_resolve
  resolve_version = do
    instance ← get_instance
    detect_and_resolve instance instance.spec.enable_ocp_rag
