-- ===== src/Version.antt =====
-- version.go, and the reading of a MAJOR.MINOR.PATCH text in `readLoginMessage` of messages.go:
-- the expression `\A(\d+)\.(\d+)\.(\d+)\z` as a scanner, and `strconv.Atoi` on a run of digits.
pub mod Shape
use netorcai.Prelude.{
  ℕ, zero, suc, ◌+◌, ◌-◌, ◌*◌, ℤ, pos, List, [], ◌∷◌, ◌++◌, String, Bool, true, false, ◌&&◌, Option,
  none, some, leb, ◌==◌, if◌then◌else◌,
}
use netorcai.Float64.{max_int}
use netorcai.Prelude.{leb_ℤ}

abbrev pub version_major : ℤ
version_major = pos 2

-- `Version`, as `Sprintf` prints the three numbers.
abbrev pub version : String
version = "2.0.0"

abbrev pub is_digit : ℕ → Bool
is_digit c = leb b'0' c && leb c b'9'

-- The longest run of digits at the front, and the rest.
pub span_digits : List ℕ → List ℕ × List ℕ
span_digits [] = ([], [])
span_digits (c ∷ cs) =
    let (run, rest) = span_digits cs in if is_digit c then (c ∷ run, rest) else ([], c ∷ cs)

-- `\d+`: at least one digit.
digits_of : List ℕ × List ℕ → Option (List ℕ × List ℕ)
digits_of ([], rest) = none
digits_of (c ∷ cs, rest) = some (c ∷ cs, rest)

infixl 5 ◌>>=◌
abbrev pub ◌>>=◌ {ℓ κ} : {A : Type ℓ} {B : Type κ} → Option A → (A → Option B) → Option B
none >>= f = none
some a >>= f = f a

pub scan_digits : List ℕ → Option (List ℕ × List ℕ)
unfolding span_digits digits_of
scan_digits cs = digits_of (span_digits cs)

pub scan_dot : List ℕ → Option (List ℕ)
scan_dot [] = none
scan_dot (c ∷ cs) = if c == b'.' then some cs else none

scan_end : List ℕ → Option (Unit {0})
scan_end [] = some tt
scan_end (c ∷ cs) = none

-- The three groups of a match, or `none` where the expression does not match.
unfoldable pub match_version : List ℕ → Option (List ℕ × List ℕ × List ℕ)
unfolding scan_end scan_digits scan_dot
match_version cs = do
  (major, r₁) ← scan_digits cs
  r₂ ← scan_dot r₁
  (minor, r₃) ← scan_digits r₂
  r₄ ← scan_dot r₃
  (patch, r₅) ← scan_digits r₄
  _ ← scan_end r₅
  some (major, minor, patch)

-- The value of a run of digits, most significant first.
unfoldable pub decimal : ℕ → List ℕ → ℕ
decimal acc [] = acc
decimal acc (c ∷ cs) = decimal (acc * 10 + (c - b'0')) cs

-- `strconv.Atoi` with its error dropped: out of range it returns the nearest `int`.
unfoldable pub atoi : List ℕ → ℤ
atoi cs = let v = pos (decimal 0 cs) in if leb_ℤ v max_int then v else max_int
