-- ===== src/OlsInstall/Version.antt =====
-- ols_install.go: the recommended version of the OLS operator, and its names.
use Prim.Native.String.{len, slice}
use mathlib.Core.Option.{get_or}
use osls_operator.Base.{String, ◌<>◌, ◌==◌, if◌then◌else◌, leb, Result, ok, err, new_error}
use osls_operator.Api.Kubernetes.{ObjectMeta}
use osls_operator.Platform.{Platform}
use osls_operator.Platform.Exec.{Outcome, returns, panics}

-- `OLSOperatorName`
abbrev pub ols_operator_name : String
ols_operator_name = "lightspeed-operator"

-- The switch of `GetRecommendedOLSVersion`.
unfoldable pub recommended_version : String → Result String
recommended_version version =
    if version == ""
    then err (new_error "environment variable OPENSHIFT_LIGHTSPEED_OPERATOR_VERSION is not set")
    else if version == "latest"
    then ok ""
    else ok version

-- `GetRecommendedOLSVersion`
unfoldable pub get_recommended_ols_version : Platform → Result String
unfolding recommended_version
get_recommended_ols_version P =
    recommended_version (get_or (P.lookup_env "OPENSHIFT_LIGHTSPEED_OPERATOR_VERSION") "")

-- `GetOLSSubscriptionName`: the slice `[:5]` panics on a UID of less than 5 bytes. (A UID is
-- ASCII; where a character of several bytes is cut, the model keeps whole characters.)
unfoldable pub get_ols_subscription_name : ObjectMeta → Outcome String
get_ols_subscription_name instance =
    if leb 5 (len instance.uid)
    then returns (ols_operator_name <> ("-" <> slice instance.uid 0 5))
    else panics
