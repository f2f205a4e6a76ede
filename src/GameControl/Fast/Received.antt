-- ===== src/GameControl/Fast/Received.antt =====
-- `actionReceived` of the fast loop: whom it still waits for.
use netorcai.Prelude.{
  ℤ, eqb_ℤ, eqb_ℤ_iff, ◌≡◌, refl, subst, sym, ◌≢◌, ◌⊎◌, inl, inr, List, [], ◌∷◌, Bool, true, false,
  ◌||◌, Option, none, some, if◌then◌else◌, Bool-cases, arith, All,
}
use netorcai.GameControl.Fast.{Event, player_action, player_disconnected, put, are_all_values_true}

-- The player that an action or a disconnection is about.
abbrev pub subject : Event → Option ℤ
subject (player_action action) = some action.player_id
subject (player_disconnected id) = some id
subject _ = none

-- Only the cases of the inner `select` that go on.
abbrev pub Plays : List Event → Type 0
Plays [] = Unit {0}
Plays (e ∷ es) = (subject e ≢ none) × Plays es

abbrev pub is_about : ℤ → Option ℤ → Bool
is_about id none = false
is_about id (some k) = eqb_ℤ id k

-- Whether the player has acted or left.
abbrev pub heard : ℤ → List Event → Bool
heard id [] = false
heard id (e ∷ es) = is_about id (subject e) || heard id es

-- The players that the loop still waits for.
abbrev pub awaited : List (ℤ × Bool) → List ℤ
awaited [] = []
awaited ((k, v) ∷ es) = if v then awaited es else k ∷ awaited es

pub nobody_left :
    (m : List (ℤ × Bool)) → All (λ c. heard c [] ≡ true) (awaited m) → are_all_values_true m ≡ true
unfolding are_all_values_true
nobody_left [] h = refl
nobody_left ((k, true) ∷ es) h = nobody_left es h
nobody_left ((k, false) ∷ es) h = cc

-- No entry has the key.
abbrev Absent : ℤ → List (ℤ × Bool) → Type 0
Absent id m = All (λ e. eqb_ℤ e.0 id ≡ false) m

-- A map has one entry for a key.
abbrev pub Distinct : List (ℤ × Bool) → Type 0
Distinct [] = Unit {0}
Distinct ((k, v) ∷ es) = Absent k es × Distinct es

put-Absent :
    (id k : ℤ) (m : List (ℤ × Bool)) → eqb_ℤ id k ≡ false → Absent k m → Absent k (put id m)
unfolding put
put-Absent id k [] h a = (h, tt)
put-Absent id k ((j, v) ∷ es) h a = ground (arith, put-Absent id k es h a.1)

eqb_ℤ_sym_false : (a b : ℤ) → eqb_ℤ a b ≡ false → eqb_ℤ b a ≡ false
eqb_ℤ_sym_false a b h = ground (arith, eqb_ℤ_iff a b, eqb_ℤ_iff b a)

pub put-Distinct : (id : ℤ) (m : List (ℤ × Bool)) → Distinct m → Distinct (put id m)
unfolding put
put-Distinct id [] d = (tt, tt)
put-Distinct id ((k, v) ∷ es) d = elim (Bool-cases (eqb_ℤ k id)) [
  | inl hit ↦ rw hit d
  | inr miss ↦ rw miss (put-Absent id k es (eqb_ℤ_sym_false k id miss) d.0, put-Distinct id es d.1)
]

eqb_ℤ_other : (j k id : ℤ) → eqb_ℤ j k ≡ false → eqb_ℤ k id ≡ true → eqb_ℤ j id ≡ false
eqb_ℤ_other j k id miss hit = subst (λ i. eqb_ℤ j i ≡ false) ((eqb_ℤ_iff k id).0 hit) miss

-- What is left to hear once one player was heard.
others-heard :
    (id k : ℤ) (es : List Event) (m : List (ℤ × Bool))
    → eqb_ℤ k id ≡ true
    → Absent k m
    → All (λ c. (eqb_ℤ c id || heard c es) ≡ true) (awaited m)
    → All (λ c. heard c es ≡ true) (awaited m)
others-heard id k es [] e a h = tt
others-heard id k es ((j, true) ∷ m) e a h = others-heard id k es m e a.1 h
others-heard id k es ((j, false) ∷ m) e a h =
    (rw (eqb_ℤ_other j k id a.0 e) at h.0, others-heard id k es m e a.1 h.1)

pub awaited-put :
    (id : ℤ) (es : List Event) (m : List (ℤ × Bool))
    → Distinct m
    → All (λ c. (eqb_ℤ c id || heard c es) ≡ true) (awaited m)
    → All (λ c. heard c es ≡ true) (awaited (put id m))
unfolding put
awaited-put id es [] d h = tt
awaited-put id es ((k, true) ∷ m) d h = elim (Bool-cases (eqb_ℤ k id)) [
  | inl hit ↦ rw hit (others-heard id k es m hit d.0 h)
  | inr miss ↦ rw miss (awaited-put id es m d.1 h)
]
awaited-put id es ((k, false) ∷ m) d h = elim (Bool-cases (eqb_ℤ k id)) [
  | inl hit ↦ rw hit (others-heard id k es m hit d.0 h.1)
  | inr miss ↦ rw miss (rw miss at h.0, awaited-put id es m d.1 h.1)
]

-- The player is connected and has neither acted nor left.
abbrev pub Waits : ℤ → List (ℤ × Bool) → Type 0
Waits id [] = ⊥
Waits id ((k, v) ∷ es) = ((k ≡ id) × (v ≡ false)) ⊎ Waits id es

pub Waits-put :
    (id c : ℤ) (m : List (ℤ × Bool)) → eqb_ℤ c id ≡ false → Waits c m → Waits c (put id m)
unfolding put
Waits-put id c [] h w = absurd w
Waits-put id c ((k, v) ∷ m) h (inl (e, waits)) =
    rw (subst (λ k. eqb_ℤ k id ≡ false) (sym e) h) (inl (e, waits))
Waits-put id c ((k, v) ∷ m) h (inr w) = elim (Bool-cases (eqb_ℤ k id)) [
  | inl hit ↦ rw hit (inr w)
  | inr miss ↦ rw miss (inr (Waits-put id c m h w))
]

pub Waits-not_all : (c : ℤ) (m : List (ℤ × Bool)) → Waits c m → are_all_values_true m ≡ false
unfolding are_all_values_true
Waits-not_all c [] w = absurd w
Waits-not_all c ((k, true) ∷ m) (inl (e, waits)) = cc
Waits-not_all c ((k, false) ∷ m) (inl (e, waits)) = refl
Waits-not_all c ((k, true) ∷ m) (inr w) = Waits-not_all c m w
Waits-not_all c ((k, false) ∷ m) (inr w) = refl
