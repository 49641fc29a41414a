-- ===== src/Tests/Versions.antt =====
-- The theorems on OpenShift versions and on the watched namespaces, at texts.
use osls_operator.Base.{
  String, ◌≡◌, ◌≢◌, ◌↔◌, refl, ◌⊎◌, true, false, some, [], ◌∷◌, All, ok, err, new_error,
}
use osls_operator.OcpVersion.{
  parse_major_minor_version, resolve_ocp_version, is_supported_ocp_version, ocp_version_latest,
}
use osls_operator.OcpVersion.Parse.{IsVersionOf, parse_major_minor_version_iff}
use osls_operator.OcpVersion.Resolve.{resolve_ocp_version_sound, resolve-parse-ne_err}
use osls_operator.OcpVersion.Again.{parse_major_minor_version-fixed}
use osls_operator.Main.{get_watch_namespaces}
use osls_operator.Main.Namespaces.{join, Free, get_watch_namespaces_lem}
use osls_operator.Tests.Store.{memory}

abbrev no_override : String
no_override = ""

-- A version that is not supported, and one that is.
abbrev unsupported : String
unsupported = "4.17"

abbrev supported : String
supported = "4.18"

abbrev latest : String
latest = "latest"

parse_major_minor_version_iff_example :
    (parse_major_minor_version "4.18.3" ≡ ok "4.18") ↔ IsVersionOf "4.18.3" "4.18"
parse_major_minor_version_iff_example = parse_major_minor_version_iff "4.18.3" "4.18"

resolve_ocp_version_sound_example :
    ((no_override ≢ "") × (latest ≡ no_override) × (true ≡ false))
    ⊎ ((no_override ≡ "")
        × (unsupported ≢ "")
        × (is_supported_ocp_version latest ≡ true)
        × (((true ≡ false) × (latest ≡ unsupported))
            ⊎ ((true ≡ true)
                × (is_supported_ocp_version unsupported ≡ false)
                × (latest ≡ ocp_version_latest))))
unfolding resolve_ocp_version is_supported_ocp_version
resolve_ocp_version_sound_example = resolve_ocp_version_sound unsupported no_override refl

resolve-parse-ne_err_example :
    resolve_ocp_version "4.18" "" true ≢ err (new_error "no OCP version detected")
unfolding parse_major_minor_version
resolve-parse-ne_err_example =
    resolve-parse-ne_err "4.18.3" "4.18" "" true (new_error "no OCP version detected") refl

get_watch_namespaces_lem_example :
    (memory.lookup_env "WATCH_NAMESPACE" ≡ some (join "," ("openstack" ∷ "lightspeed" ∷ [])))
    × All (Free ",") ("openstack" ∷ "lightspeed" ∷ [])
unfolding get_watch_namespaces
get_watch_namespaces_lem_example =
    get_watch_namespaces_lem memory ("openstack" ∷ "lightspeed" ∷ []) refl

parse_major_minor_version-fixed_example : parse_major_minor_version supported ≡ ok supported
unfolding parse_major_minor_version
parse_major_minor_version-fixed_example = parse_major_minor_version-fixed "4.18.3" supported refl
