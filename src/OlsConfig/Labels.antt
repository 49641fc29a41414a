-- ===== src/OlsConfig/Labels.antt =====
-- Labels, a `map[string]string`; a nil map is the empty one.
use osls_operator.Base.{String, List, [], ◌∷◌, ◌==◌, if◌then◌else◌}
use osls_operator.Json.{Fields, str, insert_field}

abbrev pub Labels : Type 0
Labels = List (String × String)

-- `m[k]`, which is "" for a key that is not there
unfoldable pub label : String → Labels → String
label k [] = ""
label k ((j, v) ∷ m) = if j == k then v else label k m

-- `m[k] = v`
unfoldable pub insert_label : String → String → Labels → Labels
insert_label k v [] = (k, v) ∷ []
insert_label k v ((j, w) ∷ m) = if j == k then (k, v) ∷ m else (j, w) ∷ insert_label k v m

-- The loop of `PatchOLSConfig` that copies labels into a `map[string]interface{}`.
unfoldable pub copy_labels : Labels → Fields → Fields
copy_labels [] fields = fields
copy_labels ((k, v) ∷ m) fields = copy_labels m (insert_field k (str v) fields)

-- `OpenStackLightspeedOwnerIDLabel`
abbrev pub owner_id_label : String
owner_id_label = "openstack.org/lightspeed-owner-id"

-- `randomLabelKey` of `OLSConfigPing`
abbrev pub random_label_key : String
random_label_key = "openstack-lightspeed/ping"
