-- ===== src/Shared.antt =====
-- The functions of internal/controller/funcs.go that both halves of the controller use.
use osls_operator.Base.{String, Bool, false, ◌||◌, ◌==◌, List, [], ◌∷◌}
use osls_operator.Api.Kubernetes.{OwnerReference, ObjectMeta}
use osls_operator.Platform.{Platform}
use osls_operator.Platform.Exec.{Exec, ◌>>◌, call}

-- the loop of `IsOwnedBy` over the owner references
unfoldable pub has_owner : List OwnerReference → String → Bool
has_owner [] uid = false
has_owner (ref ∷ refs) uid = ref.uid == uid || has_owner refs uid

-- `IsOwnedBy`
unfoldable pub is_owned_by : ObjectMeta → ObjectMeta → Bool
unfolding has_owner
is_owned_by object owner = has_owner object.owner_references owner.uid

module _ (P : Platform) where
  -- `GetRawClient`
  unfoldable pub get_raw_client : Exec P.State Unit
  get_raw_client = do call P.get_config; call P.new_client
