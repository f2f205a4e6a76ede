-- ===== src/Float64.antt =====
-- The `float64` values that JSON numbers and command-line delays are read into, exactly: a finite
-- value is a signed dyadic number. `to_int` is the conversion `int(f)` on a 64-bit machine.
use netorcai.Prelude.{
  ◌≢◌, ℕ, zero, suc, ◌+◌, ◌*◌, ◌/◌, ◌^◌, ◌≡◌, refl, Bool, true, false, ◌&&◌, arith, if◌then◌else◌,
  ℤ, pos, negsuc, pos_part, neg_part, leb_ℤ, ltb_ℤ, ◌≤ℤ◌,
}

-- `finite s m e` is m * 2 ^ e, negated if `s`.
pub data Float64 : Type 0 where
  finite : Bool → ℕ → ℤ → Float64
  infinite : Bool → Float64
  nan : Float64

abbrev pub signed : Bool → ℕ → ℤ
signed negative zero = pos 0
signed negative (suc n) = if negative then negsuc n else pos (suc n)

abbrev pub of_int : ℤ → Float64
of_int (pos n) = finite false n (pos 0)
of_int (negsuc n) = finite true (suc n) (pos 0)

truncate : ℕ → ℤ → ℕ
truncate m (pos e) = m * 2 ^ e
truncate m (negsuc e) = m / 2 ^ suc e

abbrev pub min_int : ℤ
min_int = negsuc 0x7fff_ffff_ffff_ffff

abbrev pub max_int : ℤ
max_int = pos 0x7fff_ffff_ffff_ffff

-- A value that an `int` cannot hold converts to the least `int`, as amd64 does it.
abbrev pub clamp_int : ℤ → ℤ
clamp_int v = if leb_ℤ min_int v && leb_ℤ v max_int then v else min_int

-- Rounds towards zero.
unfoldable pub to_int : Float64 → ℤ
unfolding truncate
to_int (finite s m e) = clamp_int (signed s (truncate m e))
to_int (infinite s) = min_int
to_int nan = min_int

-- The two magnitudes over one power of two.
abbrev scaled : Bool → ℕ → ℤ → ℤ → ℤ
scaled s m e e' = signed s (m * 2 ^ (pos_part e + neg_part e'))

-- Go's `a < b` and `a <= b`. No comparison with NaN holds.
unfoldable pub lt : Float64 → Float64 → Bool
lt (finite s m e) (finite s' m' e') = ltb_ℤ (scaled s m e e') (scaled s' m' e' e)
lt (finite s m e) (infinite true) = false
lt (finite s m e) (infinite false) = true
lt (infinite true) (finite s m e) = true
lt (infinite false) (finite s m e) = false
lt (infinite true) (infinite false) = true
lt (infinite s) (infinite s') = false
lt nan b = false
lt a nan = false

unfoldable pub le : Float64 → Float64 → Bool
le (finite s m e) (finite s' m' e') = leb_ℤ (scaled s m e e') (scaled s' m' e' e)
le (finite s m e) (infinite true) = false
le (finite s m e) (infinite false) = true
le (infinite true) (finite s m e) = true
le (infinite false) (finite s m e) = false
le (infinite false) (infinite true) = false
le (infinite s) (infinite s') = true
le nan b = false
le a nan = false

-- An `int` survives the way through a JSON number.
pub to_int-of_int : (v : ℤ) → min_int ≤ℤ v → v ≤ℤ max_int → to_int (of_int v) ≡ v
unfolding to_int
to_int-of_int (pos zero) lo hi = refl
to_int-of_int (pos (suc n)) lo hi = ground arith
to_int-of_int (negsuc n) lo hi = ground arith

pub to_int_range : (f : Float64) → (min_int ≤ℤ to_int f) × (to_int f ≤ℤ max_int)
unfolding to_int
to_int_range (finite s m e) = ground arith
to_int_range (infinite s) = omega arith
to_int_range nan = omega arith

half_is_zero : to_int (finite false 1 (negsuc 0)) ≡ pos 0
unfolding to_int
half_is_zero = refl

-- No comparison with NaN holds.
pub lt-nan : (a : Float64) → lt a nan ≡ false
unfolding lt
lt-nan (finite s m e) = refl
lt-nan (infinite s) = refl
lt-nan nan = refl

pub nan-lt : (a : Float64) → lt nan a ≡ false
unfolding lt
nan-lt a = refl

pub le-nan : (a : Float64) → le a nan ≡ false
unfolding le
le-nan (finite s m e) = refl
le-nan (infinite s) = refl
le-nan nan = refl

-- For any other value the test `!(a < b)` is the test `b <= a`.
pub not-lt→le : (a b : Float64) → a ≢ nan → b ≢ nan → lt a b ≡ false → le b a ≡ true
unfolding lt le
not-lt→le nan b h k e = absurd (h refl)
not-lt→le a nan h k e = absurd (k refl)
not-lt→le a b h k e = ground arith
