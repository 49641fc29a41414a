-- ===== src/OcpVersion/Detect.antt =====
-- ocp_version.go: `DetectOCPVersion`
use osls_operator.Base.{String, ◌<>◌, Option, none, some, [], ◌∷◌, new_error}
use osls_operator.Platform.{Platform}
use osls_operator.Platform.Exec.{Exec, ◌>>=◌, ◌>>◌, fail, lift, call, context}
use osls_operator.Shared.{get_raw_client}
use osls_operator.OcpVersion.{parse_major_minor_version}

module _ (P : Platform) where
  unfoldable pub parse_found : Option String → Exec P.State String
  parse_found none =
      fail (new_error "version field not found in ClusterVersion status.desired.version")
  parse_found (some version) =
      context ("failed to parse version " <> version) (lift (parse_major_minor_version version))

  -- `DetectOCPVersion`
  unfoldable pub detect_ocp_version : Exec P.State String
  unfolding get_raw_client parse_found
  detect_ocp_version = do
    context "failed to get raw client" (get_raw_client P)
    cluster_version ←
        context "failed to get ClusterVersion" (call (P.get_cluster_version "version"))
    version ←
        context "failed to extract version from ClusterVersion"
          (lift (P.uns.nested_string cluster_version ("status" ∷ "desired" ∷ "version" ∷ [])))
    parse_found version
