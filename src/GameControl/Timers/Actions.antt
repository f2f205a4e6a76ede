-- ===== src/GameControl/Timers/Actions.antt =====
-- The actions that are gathered for the next DO_TURN, one statement after the other.
use mathlib.Core.List.{
  Perm, Mem, Nodup, Nodup-cons, perm_append_singleton, mem-cons, not-mem-nil, map-append,
}
use mathlib.Core.List.Perm
use mathlib.Core.Logic.Or
use mathlib.Core.Bool.{false≢true}
use mathlib.Core.HLevel.{⊥_prop}
use netorcai.Prelude.{
  ℕ, suc, ℤ, eqb_ℤ, eqb_ℤ_iff, ◌≡◌, refl, sym, ap, ◌∙◌, subst, List, [], ◌∷◌, ◌++◌, map, some,
  get_elem?, set, false, true,
}
use netorcai.Outcome.{returns}
use netorcai.Slices.{swap_last}
use netorcai.Slices.Moves.{set-Perm, front_and_last, swap_last-append, length-last, set-last}
use netorcai.State.{MessageDoTurnPlayerAction}
use netorcai.GameControl.Timers.{store_last}

abbrev pub authors : List MessageDoTurnPlayerAction → List ℤ
authors = map λ a. a.player_id

abbrev pub Unique : List MessageDoTurnPlayerAction → Type 0
Unique actions = Nodup (authors actions)

eqb_ℤ_refl : (a b : ℤ) → b ≡ a → eqb_ℤ a b ≡ true
eqb_ℤ_refl a b e = (eqb_ℤ_iff a b).1 (sym e)

pub not-mem_authors :
    (id : ℤ) (actions : List MessageDoTurnPlayerAction)
    → ((i : ℕ) (a : MessageDoTurnPlayerAction)
        → get_elem? actions i ≡ some a
        → eqb_ℤ a.player_id id ≡ false)
    → ¬ Mem id (authors actions)
not-mem_authors id [] absent m = not-mem-nil m
not-mem_authors id (a ∷ as_) absent m =
    Or.elim ⊥_prop (mem-cons.0 m)
      (λ e. false≢true (sym (absent 0 a refl) ∙ eqb_ℤ_refl a.player_id id e))
      (not-mem_authors id as_ (λ i b q. absent (suc i) b q))

Unique-Perm : (xs ys : List MessageDoTurnPlayerAction) → Perm xs ys → Unique ys → Unique xs
Unique-Perm xs ys p unique = Perm.nodup (Perm.symm (Perm.map (λ a. a.player_id) p)) unique

-- An action of a player that has none yet is appended.
pub Unique-append :
    (actions : List MessageDoTurnPlayerAction) (action : MessageDoTurnPlayerAction)
    → ¬ Mem action.player_id (authors actions)
    → Unique actions
    → Unique (actions ++ (action ∷ []))
Unique-append actions action absent unique =
    Unique-Perm (actions ++ (action ∷ [])) (action ∷ actions) (perm_append_singleton action actions)
      (Nodup-cons.1 (absent, unique))

-- The swap puts the action that was found at the end.
pub swap_last-Unique :
    (actions : List MessageDoTurnPlayerAction) (i : ℕ) (old : MessageDoTurnPlayerAction)
    → Unique actions
    → get_elem? actions i ≡ some old
    → (rest : List MessageDoTurnPlayerAction) × (swap_last i actions ≡ returns (rest ++ (old ∷ [])))
      × Unique (rest ++ (old ∷ []))
swap_last-Unique actions i old unique at_i =
    let (front, l, split) = front_and_last actions i at_i in
    let at_i' : get_elem? (front ++ (l ∷ [])) i ≡ some old =
      subst (λ xs. get_elem? xs i ≡ some old) split at_i in
    let rest : List MessageDoTurnPlayerAction = set front i l in
    (
      rest,
      subst (λ xs. swap_last i xs ≡ returns (rest ++ (old ∷ []))) (sym split)
          (swap_last-append front l old i at_i'),
      Unique-Perm (rest ++ (old ∷ [])) actions
          (Perm.trans (perm_append_singleton old rest)
            (subst (Perm (old ∷ rest)) (sym split) (set-Perm front l old i at_i')))
          unique,
    )

-- The new action overwrites the one at the end.
pub store_last-append :
    (action old : MessageDoTurnPlayerAction) (rest : List MessageDoTurnPlayerAction)
    → store_last action (rest ++ (old ∷ [])) ≡ returns (rest ++ (action ∷ []))
unfolding store_last
store_last-append action old [] = refl
store_last-append action old (a ∷ rest) =
    rw (length-last (a ∷ rest) old) (ap returns (set-last (a ∷ rest) old action))

pub Unique-replaced :
    (action old : MessageDoTurnPlayerAction) (rest : List MessageDoTurnPlayerAction)
    → old.player_id ≡ action.player_id
    → Unique (rest ++ (old ∷ []))
    → Unique (rest ++ (action ∷ []))
Unique-replaced action old rest same unique =
    subst Nodup
      (map-append (λ a. a.player_id) rest (old ∷ [])
        ∙ ap (λ k. authors rest ++ (k ∷ [])) same
        ∙ sym (map-append (λ a. a.player_id) rest (action ∷ [])))
      unique
