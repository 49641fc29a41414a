-- ===== src/OcpVersion/Resolve.antt =====
-- `ResolveOCPVersion`, on every branch.
use osls_operator.Base.{
  String, ◌≡◌, refl, Bool, true, false, Error, ok, err, arith, eq_iff, ◌≢◌, ◌⊎◌,
}
use osls_operator.OcpVersion.Parse.{parse_major_minor_version-ne_empty}
use osls_operator.OcpVersion.{
  resolve_ocp_version, is_supported_ocp_version, ocp_version_latest, parse_major_minor_version,
}

latest_supported : is_supported_ocp_version ocp_version_latest ≡ true
unfolding is_supported_ocp_version
latest_supported = refl

-- Where `ResolveOCPVersion` returns a version with OCP RAG enabled: an override is used as it
-- is. Without one, the version used is one of the supported ones: the detected version when
-- that is supported, and "latest", marked as a fallback, when it is not.
pub resolve_ocp_version_sound :
    (detected override : String) {version : String} {is_fallback : Bool}
    → resolve_ocp_version detected override true ≡ ok (version, is_fallback)
    → ((override ≢ "") × (version ≡ override) × (is_fallback ≡ false))
      ⊎ ((override ≡ "")
          × (detected ≢ "")
          × (is_supported_ocp_version version ≡ true)
          × (((is_fallback ≡ false) × (version ≡ detected))
              ⊎ ((is_fallback ≡ true)
                  × (is_supported_ocp_version detected ≡ false)
                  × (version ≡ ocp_version_latest))))
unfolding resolve_ocp_version
resolve_ocp_version_sound detected override {version} {is_fallback} h =
    ground (arith, eq_iff override "", eq_iff detected "", latest_supported)

-- A version that was parsed always resolves, whatever the override.
pub resolve-parse-ne_err :
    (text detected override : String) (enabled : Bool) (e : Error)
    → parse_major_minor_version text ≡ ok detected
    → resolve_ocp_version detected override enabled ≢ err e
unfolding resolve_ocp_version
resolve-parse-ne_err text detected override false e h = ground arith
resolve-parse-ne_err text detected override true e h =
    ground (arith, parse_major_minor_version-ne_empty text detected h)
