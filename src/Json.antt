-- ===== src/Json.antt =====
-- What `json.Unmarshal` yields at type `interface{}`: the values behind `map[string]interface{}`.
-- An object is its list of fields; `lookup` is `value, exists := data[field]`.

use netorcai.Prelude.{String, str_eq, Bool, Option, none, some, if◌then◌else◌}
use netorcai.Float64.{Float64}

mutual
  pub data Value : Type 0 where
    null : Value
    bool : Bool → Value
    number : Float64 → Value
    text : String → Value
    array : Items → Value
    object : Fields → Value

  pub data Items : Type 0 where
    nil : Items
    cons : Value → Items → Items

  pub data Fields : Type 0 where
    end : Fields
    field : String → Value → Fields → Fields

unfoldable pub lookup : Fields → String → Option Value
lookup end k = none
lookup (field j v fs) k = if str_eq j k then some v else lookup fs k
