-- ===== src/GameControl/Timers/Safety.antt =====
-- What a loop with timers and its goroutines can do to `playerActions`.
use mathlib.Core.List.{Nodup}
use netorcai.Prelude.{◌≡◌, ◌⊎◌, List, [], ◌∷◌, ◌++◌, some, get_elem?}
use netorcai.Result.{Result}
use netorcai.Outcome.{Outcome, returns, blocks, panics}
use netorcai.State.{MessageDoTurnPlayerAction}
use netorcai.GameControl.{Output, do_turn}
use netorcai.GameControl.Loop.{Next, loops, Round}
use netorcai.GameControl.Timers.{
  Timers, Recording, idle, found, swapped, appending, Event, records, delay_over, resets,
}
use netorcai.GameControl.Timers.Actions.{authors, Unique}

-- No DO_TURN holds two actions of one player.
abbrev pub Single : List Output → Type 0
Single [] = Unit {0}
Single (do_turn actions ∷ os) = Nodup (authors actions) × Single os
Single (_ ∷ os) = Single os

-- The loop is between two statements that replace an action.
abbrev pub IsReplacing : Recording → Type 0
IsReplacing idle = ⊥
IsReplacing (found i action) = Unit {0}
IsReplacing (swapped action) = Unit {0}
IsReplacing (appending actions action) = ⊥

-- A goroutine has emptied the list while the loop was replacing an action in it.
abbrev pub EmptiedMeanwhile : Event → Timers → Type 0
EmptiedMeanwhile records t = (t.player_actions ≡ []) × IsReplacing t.recording
EmptiedMeanwhile _ t = ⊥

-- An event cannot happen: no goroutine is there for it, or the loop is not at the place.
abbrev pub CannotHappen : Event → Timers → Type 0
CannotHappen records t = t.recording ≡ idle
CannotHappen delay_over t = t.sleeping ≡ 0
CannotHappen resets t = t.unreset ≡ 0
CannotHappen _ t = ¬ (t.recording ≡ idle)

-- The cases of the `select`.
abbrev IsOfSelect : Event → Type 0
IsOfSelect records = ⊥
IsOfSelect delay_over = ⊥
IsOfSelect resets = ⊥
IsOfSelect _ = Unit {0}

-- What the loop knows of the list in the middle of recording an action.
abbrev Shape : Recording → List MessageDoTurnPlayerAction → Type 0
Shape idle actions = Unit {0}
Shape (found i action) actions =
    (actions ≡ [])
    ⊎ ((old : MessageDoTurnPlayerAction) × (get_elem? actions i ≡ some old)
        × (old.player_id ≡ action.player_id))
Shape (swapped action) actions =
    (actions ≡ [])
    ⊎ ((old : MessageDoTurnPlayerAction) × (rest : List MessageDoTurnPlayerAction) × (actions
          ≡ rest ++ (old ∷ []))
        × (old.player_id ≡ action.player_id))
Shape (appending base action) actions = Unique (base ++ (action ∷ []))

abbrev Inv : Timers → Type 0
Inv t = Unique t.player_actions × Shape t.recording t.player_actions

abbrev Kept : Next Timers → Type 0
Kept next = (t : Timers) → next ≡ loops t → Inv t

abbrev Cases : Event → Timers → Outcome (Round Timers) → Type 0
Cases e t o =
    ((o ≡ blocks) × CannotHappen e t)
    ⊎ (((o ≡ panics) × EmptiedMeanwhile e t)
        ⊎ ((r : Round Timers) × (o ≡ returns r) × Kept r.next × Single r.outputs))
