-- ===== src/Main.antt =====
-- cmd/main.go: the namespaces that the manager watches; api/v1beta1/openstacklightspeed_types.go:
-- `SetupDefaults`, which it calls, and `IsReady`.
pub mod Namespaces
pub mod Launch
pub mod Flags
pub mod Manager
pub mod Start
pub mod Tasks
pub mod Registers
pub mod Boots
pub mod Secure
use Prim.Native.Char.{Char}
use osls_operator.Base.{
  String, ◌<>◌, Bool, Option, none, some, List, [], ◌∷◌, if◌then◌else◌, Result, ok, err, new_error,
}
use osls_operator.Base.Text.{char_eq}
use osls_operator.Api.{
  OpenStackLightspeed, OpenStackLightspeedDefaults, container_image,
  max_tokens_for_response_default,
}
use osls_operator.Api.Conditions.{openstack_lightspeed_ready_condition}
use osls_operator.Platform.{Platform}

-- A character in front of the first piece.
abbrev pub extend : Char → List String → List String
extend c [] = String.◌∷◌ c String.[] ∷ []
extend c (piece ∷ pieces) = String.◌∷◌ c piece ∷ pieces

-- `strings.Split` at one character
unfoldable pub split : Char → String → List String
split at String.[] = String.[] ∷ []
split at (String.◌∷◌ c s) = if char_eq c at then String.[] ∷ split at s else extend c (split at s)

-- What `getWatchNamespaces` makes of the environment variable.
unfoldable pub split_namespaces : Option String → Result (List String)
unfolding split
split_namespaces none = err (new_error "WATCH_NAMESPACE must be set")
split_namespaces (some ns) = ok (split "," ns)

-- `getWatchNamespaces`
unfoldable pub get_watch_namespaces : Platform → Result (List String)
unfolding split_namespaces
get_watch_namespaces P = split_namespaces (P.lookup_env "WATCH_NAMESPACE")

-- `SetupDefaults`, given `util.GetEnvVar`
unfoldable pub setup_defaults : (String → String → String) → OpenStackLightspeedDefaults
setup_defaults get_env_var = record {
  rag_image_url =
      get_env_var "RELATED_IMAGE_OPENSTACK_LIGHTSPEED_IMAGE_URL_DEFAULT" container_image;
  max_tokens_for_response = max_tokens_for_response_default;
}

-- `IsReady`
unfoldable pub is_ready : Platform → OpenStackLightspeed → Bool
is_ready P i = P.conditions.is_true i.status.conditions openstack_lightspeed_ready_condition
