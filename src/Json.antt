-- ===== src/Json.antt =====
-- Go's `map[string]interface{}` as the operator builds and reads it: the content of an
-- `unstructured.Unstructured`. A map is an association list, read at the first entry of a key.
use osls_operator.Base.{String, Option, none, some, List, [], ◌∷◌, Bool, ◌==◌, if◌then◌else◌}
use osls_operator.Base.Int.{ℤ}

mutual
  pub data Value : Type 0 where
    str : String → Value
    -- `float64(n)`: the floating point number that stands for an integer
    float64 : ℤ → Value
    boolean : Bool → Value
    slice : Values → Value
    object : Fields → Value

  pub data Values : Type 0 where
    nil : Values
    cons : Value → Values → Values

  pub data Fields : Type 0 where
    end : Fields
    field : String → Value → Fields → Fields

abbrev pub lookup_field : String → Fields → Option Value
lookup_field k end = none
lookup_field k (field j v fs) = if j == k then some v else lookup_field k fs

abbrev pub lookup_in : String → Option Value → Option Value
lookup_in k (some (object fs)) = lookup_field k fs
lookup_in k _ = none

-- The value at the end of a path of keys, if every step leads into a map that has the key.
abbrev pub lookup_from : Option Value → List String → Option Value
lookup_from v [] = v
lookup_from v (k ∷ ks) = lookup_from (lookup_in k v) ks

abbrev pub lookup_path : Fields → List String → Option Value
lookup_path fs ks = lookup_from (some (object fs)) ks

-- `m[k] = v` for each pair of a `map[string]string`, into a `map[string]interface{}`.
abbrev pub insert_field : String → Value → Fields → Fields
insert_field k v end = field k v end
insert_field k v (field j w fs) = if j == k then field k v fs else field j w (insert_field k v fs)
