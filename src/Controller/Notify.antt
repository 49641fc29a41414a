-- ===== src/Controller/Notify.antt =====
-- openstacklightspeed_controller.go: `NotifyAllOpenStackLightspeeds`
use osls_operator.Base.{
  String, ◌==◌, Option, none, some, List, [], ◌∷◌, Result, ok, err, if◌then◌else◌,
}
use osls_operator.Api.{OpenStackLightspeed}
use osls_operator.Api.Kubernetes.{ObjectKey}
use osls_operator.Platform.{Platform}
use osls_operator.Platform.Exec.{Exec, ◌>>=◌, pure, try, call}

-- `client.ObjectKey{…}` of an item
abbrev pub key_of : OpenStackLightspeed → ObjectKey
key_of item = record { namespace = item.meta.namespace; name = item.meta.name }

-- The loop over the items.
unfoldable pub requests_for : List OpenStackLightspeed → List ObjectKey
requests_for [] = []
requests_for (item ∷ items) = key_of item ∷ requests_for items

unfoldable pub requests_of : Result (List OpenStackLightspeed) → List ObjectKey
unfolding requests_for
requests_of (err e) = []
requests_of (ok items) = requests_for items

-- No namespace filter for an object without a namespace.
unfoldable pub scope_of : String → Option String
scope_of namespace = if namespace == "" then none else some namespace

module _ (P : Platform) where
  -- `NotifyAllOpenStackLightspeeds`, given the namespace of the object
  unfoldable pub notify_all_openstack_lightspeeds : String → Exec P.State (List ObjectKey)
  unfolding requests_of scope_of
  notify_all_openstack_lightspeeds namespace = do
    answer ← try (call (P.list_instances (scope_of namespace)))
    pure (requests_of answer)
