-- ===== src/ReadUtil.antt =====
-- readutil.go: typed reads of the fields of a decoded JSON object or of the parsed command line.
pub mod Ranges
use netorcai.Prelude.{ℕ, ℤ, String, codes, Option, none, some, Option-cases, if◌then◌else◌, ltb_ℤ}
use netorcai.Result.{Result, ok, err, Error, missing_field, non_string, non_integral, non_object}
use netorcai.Result.{non_array, not_an_integer, not_a_float, less_than_min, greater_than_max}
use netorcai.Result.{◌>>=◌}
use netorcai.Float64.{Float64, to_int}
use netorcai.Float64
use netorcai.Json.{Value, number, text, array, object, Items, Fields, lookup}
use netorcai.Strconv.{Strconv}

abbrev get : Fields → String → Result Value
get message field = elim (lookup message field) [ none ↦ err (missing_field field) | some v ↦ ok v ]

as_string : String → Value → Result String
as_string field (text s) = ok s
as_string field _ = err (non_string field)

as_int : String → Value → Result ℤ
as_int field (number f) = ok (to_int f)
as_int field _ = err (non_integral field)

as_object : String → Value → Result Fields
as_object field (object o) = ok o
as_object field _ = err (non_object field)

as_array : String → Value → Result Items
as_array field (array xs) = ok xs
as_array field _ = err (non_array field)

unfoldable pub read_string : Fields → String → Result String
unfolding as_string lookup
read_string message field = get message field >>= as_string field

unfoldable pub read_int : Fields → String → Result ℤ
unfolding as_int lookup
read_int message field = get message field >>= as_int field

unfoldable pub read_object : Fields → String → Result Fields
unfolding as_object lookup
read_object message field = get message field >>= as_object field

unfoldable pub read_array : Fields → String → Result Items
unfolding as_array lookup
read_array message field = get message field >>= as_array field

module _ (strconv : Strconv) where
  open strconv use {parse_int, parse_float}

  -- The text is parsed, and the value compared with the two bounds.
  int_in_range : String → ℤ → ℤ → Option ℤ → Result ℤ
  int_in_range field lo hi none = err (not_an_integer field)
  int_in_range field lo hi (some v) =
      if ltb_ℤ v lo
      then err (less_than_min field)
      else if ltb_ℤ hi v
      then err (greater_than_max field)
      else ok v

  unfoldable pub read_int_in_string : Fields → String → ℕ → ℤ → ℤ → Result ℤ
  unfolding int_in_range read_string
  read_int_in_string arguments field bit_size lo hi = do
    s ← read_string arguments field
    int_in_range field lo hi (parse_int (codes s) bit_size)

  float_in_range : String → Float64 → Float64 → Option Float64 → Result Float64
  float_in_range field lo hi none = err (not_a_float field)
  float_in_range field lo hi (some v) =
      if Float64.lt v lo
      then err (less_than_min field)
      else if Float64.lt hi v
      then err (greater_than_max field)
      else ok v

  unfoldable pub read_float_in_string : Fields → String → ℕ → Float64 → Float64 → Result Float64
  unfolding float_in_range read_string
  read_float_in_string arguments field bit_size lo hi = do
    s ← read_string arguments field
    float_in_range field lo hi (parse_float (codes s) bit_size)
