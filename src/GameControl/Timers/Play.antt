-- ===== src/GameControl/Timers/Play.antt =====
-- A whole game with timers.
use netorcai.Prelude.{ℤ, List, ◌++◌}
use netorcai.Outcome.{Outcome}
use netorcai.State.{ClientId}
use netorcai.GameControl.Loop.{Round, Follows}
use netorcai.GameControl.{clients, Game, Output}
use netorcai.GameControl.Turns.{Counted}
use netorcai.GameControl.Timers.{Timers}

-- The outputs that keep to the number of turns.
abbrev CountedFrom : List ClientId → ℤ → Timers → List Output → Type 0
CountedFrom cs max t os = Counted cs max t.turn_number os

abbrev Fits : Game → Timers → List Output → Round Timers → Type 0
Fits game t rest r =
    Follows (CountedFrom (clients game) game.nb_turns_max) r.next rest
    → Counted (clients game) game.nb_turns_max t.turn_number (r.outputs ++ rest)
