-- ===== src/Strconv.antt =====
-- The parsers of Go's `strconv` that the program calls with base 0 or on floats. What they accept
-- depends on the version of Go (underscores, `0b`, `0o`), so they are parameters of what uses them.
use netorcai.Prelude.{ℕ, ℤ, List, Option}
use netorcai.Float64.{Float64}

pub record Strconv : Type 0 where
  -- `strconv.ParseInt(s, 0, bitSize)`
  pub parse_int : List ℕ → ℕ → Option ℤ
  -- `strconv.ParseFloat(s, bitSize)`; it reads "nan" and "inf" too
  pub parse_float : List ℕ → ℕ → Option Float64
