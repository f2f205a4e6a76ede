-- ===== src/Slices.antt =====
-- The idiom by which control_pv.go and control_gl.go move an entry of a slice to its end:
-- `s[len(s)-1], s[i] = s[i], s[len(s)-1]`, and then cut it off or overwrite it.
pub mod Moves
use netorcai.Prelude.{
  ℕ, suc, ◌-◌, List, [], ◌∷◌, Bool, Option, none, some, get_elem?, set, take, length, if◌then◌else◌,
}
use netorcai.Outcome.{Outcome, returns, or_panic, ◌>>=◌}

next_index : Bool → Option ℕ → Option ℕ
next_index found rest = if found then some 0 else elim rest [ none ↦ none | some i ↦ some (suc i) ]

module _ {ℓ} {A : Type ℓ} where
  -- The loop with `break` that looks for the first entry that passes a test.
  unfoldable pub find_index : (A → Bool) → List A → Option ℕ
  unfolding next_index
  find_index test [] = none
  find_index test (x ∷ xs) = next_index (test x) (find_index test xs)

  -- Both right-hand sides are read before the two writes.
  unfoldable pub swap_last : ℕ → List A → Outcome (List A)
  swap_last i xs = do
    a ← or_panic (get_elem? xs i)
    l ← or_panic (get_elem? xs (length xs - 1))
    returns (set (set xs (length xs - 1) a) i l)

  -- `s = s[:len(s)-1]` behind the swap.
  unfoldable pub remove_at : ℕ → List A → Outcome (List A)
  unfolding swap_last
  remove_at i xs = do ys ← swap_last i xs; returns (take (length ys - 1) ys)
