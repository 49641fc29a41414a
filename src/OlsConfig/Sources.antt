-- ===== src/OlsConfig/Sources.antt =====
-- The documentation sources that `BuildRAGConfigs` names.
use osls_operator.Base.{
  String, ◌≡◌, refl, sym, ap, ◌∙◌, arith, ◌==◌, eq_iff, true, false, Bool-cases, inl, inr, Option,
  none, some,
}
use osls_operator.Json.{Value, str, Values, nil, cons, lookup_in}
use osls_operator.Api.{OpenStackLightspeed}
use osls_operator.OcpVersion.{get_ocp_vector_db_path}
use osls_operator.OcpVersion.Names.{get_ocp_vector_db_path-injective}
use osls_operator.OlsConfig.Rag.{ocp_rag, build_rag_configs}

abbrev second : Values → Option Value
second nil = none
second (cons v nil) = none
second (cons v (cons w vs)) = some w

abbrev index_path : Option Value → Option Value
index_path v = lookup_in "indexPath" v

-- The path of the second source, which is the one of OpenShift.
abbrev path_of : Values → Option Value
path_of vs = index_path (second vs)

path_of-empty :
    (i : OpenStackLightspeed) (v : String)
    → (v == "") ≡ true
    → path_of (build_rag_configs i v) ≡ none
unfolding build_rag_configs
path_of-empty i v e = rw e refl

path_of-version :
    (i : OpenStackLightspeed) (v : String)
    → (v == "") ≡ false
    → path_of (build_rag_configs i v) ≡ some (str (get_ocp_vector_db_path v))
unfolding build_rag_configs ocp_rag
path_of-version i v e = rw e refl

some_str-injective : {s t : String} → some (str s) ≡ some (str t) → s ≡ t
some_str-injective h = ground arith

-- Two versions, the empty one included, for which `BuildRAGConfigs` builds the same sources for
-- an instance, are the same version.
pub build_rag_configs-injective :
    (i : OpenStackLightspeed) (v w : String) → build_rag_configs i v ≡ build_rag_configs i w → v ≡ w
build_rag_configs-injective i v w h = elim (Bool-cases (v == "")) [
  | inl ve ↦ elim (Bool-cases (w == "")) [
    | inl we ↦ (eq_iff v "").0 ve ∙ sym ((eq_iff w "").0 we)
    | inr wn ↦ cc (ap path_of h, path_of-empty i v ve, path_of-version i w wn)
  ]
  | inr vn ↦ elim (Bool-cases (w == "")) [
    | inl we ↦ cc (ap path_of h, path_of-version i v vn, path_of-empty i w we)
    | inr wn ↦
        get_ocp_vector_db_path-injective v w (
          some_str-injective (sym (path_of-version i v vn) ∙ ap path_of h ∙ path_of-version i w wn))
  ]
]
