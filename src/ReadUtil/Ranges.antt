-- ===== src/ReadUtil/Ranges.antt =====
-- What the two reads with bounds let through.
use netorcai.Prelude.{ℕ, ℤ, String, ◌≡◌, false, codes, some, ◌≤ℤ◌, arith}
use netorcai.Result.{ok}
use netorcai.Float64.{Float64, nan}
use netorcai.Float64
use netorcai.Json.{Fields}
use netorcai.Strconv.{Strconv}
use netorcai.ReadUtil.{read_string, read_int_in_string, read_float_in_string}

module _ (strconv : Strconv) where
  -- An integer that is read lies within the bounds that the caller gave.
  pub read_int_in_string_range :
      (arguments : Fields) (field : String) (bits : ℕ) (lo hi v : ℤ)
      → read_int_in_string strconv arguments field bits lo hi ≡ ok v
      → (lo ≤ℤ v) × (v ≤ℤ hi)
  unfolding read_int_in_string
  read_int_in_string_range arguments field bits lo hi v h = ground arith

  -- A float that is read is not below the least value nor above the greatest.
  pub read_float_in_string_range :
      (arguments : Fields) (field : String) (bits : ℕ) (lo hi v : Float64)
      → read_float_in_string strconv arguments field bits lo hi ≡ ok v
      → (Float64.lt v lo ≡ false) × (Float64.lt hi v ≡ false)
  unfolding read_float_in_string
  read_float_in_string_range arguments field bits lo hi v h = ground arith

  -- A text that the parser reads as NaN is accepted as a float, whatever the bounds.
  pub read_float_in_string-nan :
      (arguments : Fields) (field s : String) (bits : ℕ) (lo hi : Float64)
      → read_string arguments field ≡ ok s
      → strconv.parse_float (codes s) bits ≡ some nan
      → read_float_in_string strconv arguments field bits lo hi ≡ ok nan
  unfolding read_float_in_string
  read_float_in_string-nan arguments field s bits lo hi h k =
      ground (arith, Float64.nan-lt lo, Float64.lt-nan hi)
