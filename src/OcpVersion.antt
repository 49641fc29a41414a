-- ===== src/OcpVersion.antt =====
-- internal/controller/ocp_version.go, the part with no cluster access: parsing the version of the
-- cluster, the names derived from a version, and the choice of the documentation to use.
mod Scan
pub mod Detect
pub mod Names
pub mod Parse
pub mod Resolve
pub mod Again
unfoldable pub use Scan.{is_digit, span_digits}
use osls_operator.Base.{
  String, ◌<>◌, Bool, true, false, ◌==◌, List, [], ◌∷◌, if◌then◌else◌, Result, ok, err, new_error,
  contains,
}
use osls_operator.Base.Text.{char_eq, replace_all}

-- `OpenStackLightspeedOCPVectorDBPath`
abbrev pub ocp_vector_db_path : String
ocp_vector_db_path = "/rag/ocp_vector_db/ocp"

-- `OpenStackLightspeedOCPIndexPrefix`
abbrev pub ocp_index_prefix : String
ocp_index_prefix = "ocp-product-docs"

-- `OCPVersion416`, `OCPVersion418` and `OCPVersionLatest`
abbrev pub ocp_version_416 : String
ocp_version_416 = "4.16"

abbrev pub ocp_version_418 : String
ocp_version_418 = "4.18"

abbrev pub ocp_version_latest : String
ocp_version_latest = "latest"

-- `SupportedOCPVersions`
abbrev pub supported_ocp_versions : List String
supported_ocp_versions = ocp_version_416 ∷ ocp_version_418 ∷ ocp_version_latest ∷ []

abbrev pub invalid_format : String → String
invalid_format full_version = "invalid version format: " <> full_version

-- The match ends with at least one digit after the dot, and where the digits end.
match_digits : String → String → String → Result String
match_digits full_version major (String.[]) = err (new_error (invalid_format full_version))
match_digits full_version major (String.◌∷◌ d minor) =
    ok (major <> String.◌∷◌ "." (String.◌∷◌ d minor))

-- The match goes on with a dot.
match_minor : String → String → String → Result String
unfolding match_digits span_digits
match_minor full_version major (String.[]) = err (new_error (invalid_format full_version))
match_minor full_version major (String.◌∷◌ c rest) =
    if char_eq c "."
    then match_digits full_version major (span_digits rest).0
    else err (new_error (invalid_format full_version))

-- The match begins with at least one digit.
match_major : String → String × String → Result String
match_major full_version (String.[], rest) = err (new_error (invalid_format full_version))
match_major full_version (String.◌∷◌ d major, rest) =
    match_minor full_version (String.◌∷◌ d major) rest

-- `ParseMajorMinorVersion`: the text that `^(\d+\.\d+)` captures
unfoldable pub parse_major_minor_version : String → Result String
unfolding match_major match_minor
parse_major_minor_version full_version = match_major full_version (span_digits full_version)

-- `GetOCPIndexName`
unfoldable pub get_ocp_index_name : String → String
get_ocp_index_name version = ocp_index_prefix <> ("-" <> replace_all "." "_" version)

-- `GetOCPVectorDBPath`
unfoldable pub get_ocp_vector_db_path : String → String
get_ocp_vector_db_path version = ocp_vector_db_path <> ("_" <> version)

-- `IsSupportedOCPVersion`
unfoldable pub is_supported_ocp_version : String → Bool
unfolding contains
is_supported_ocp_version version = contains supported_ocp_versions version

-- `ResolveOCPVersion`: the version, and whether it is a fallback
unfoldable pub resolve_ocp_version : String → String → Bool → Result (String × Bool)
resolve_ocp_version detected override false = ok ("", false)
resolve_ocp_version detected override true =
    if override == ""
    then (if detected == ""
        then err (new_error "no OCP version detected")
        else if is_supported_ocp_version detected
        then ok (detected, false)
        else ok (ocp_version_latest, true))
    else ok (override, false)
