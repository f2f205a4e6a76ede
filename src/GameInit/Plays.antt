-- ===== src/GameInit/Plays.antt =====
-- From the start order to the end of a game with timers.
use netorcai.Prelude.{◌≡◌, List, ◌++◌}
use netorcai.Outcome.{returns}
use netorcai.State.{GlobalState}
use netorcai.GameControl.Loop.{loops, Round, RunCases}
use netorcai.GameControl.Turns.{Counted}
use netorcai.GameControl.Timers.{Timers, Event, first_timers, step, run}
use netorcai.GameControl.Timers.Safety.{Single, CannotHappen, EmptiedMeanwhile}
use netorcai.GameInit.{Begun}

-- A game that begins, and whatever its rounds with timers do.
pub record Plays (gs : GlobalState) (r : Round Begun) (es : List Event) : Type 0 where
  pub begun : Begun
  pub goes_on : r.next ≡ loops begun
  pub plays : RunCases (step begun.game) CannotHappen EmptiedMeanwhile Single es first_timers
  pub counted :
      (played : Round Timers)
      → run begun.game es first_timers ≡ returns played
      → Counted ((gs.players ++ gs.special_players) ++ gs.visus) gs.nb_turns_max 0 played.outputs
