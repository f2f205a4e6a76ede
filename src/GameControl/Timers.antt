-- ===== src/GameControl/Timers.antt =====
-- `gameLogicGameControlTimers`: the loop that starts a turn when a delay is over, and the goroutines that wait for
-- the delay. They share `playerActions` with the loop, without a lock. One `step` is one case of the `select`, one
-- statement of the loop that records an action, or one statement of a goroutine, in any order.
pub mod Actions
pub mod Play
pub mod Safety
pub mod Race
use netorcai.Prelude.{
  ℕ, zero, suc, ◌-◌, ℤ, pos, ltb_ℤ, eqb_ℤ, List, [], ◌∷◌, ◌++◌, Bool, Option, none, some, set,
  length, if◌then◌else◌, ◌⊎◌, inl, inr,
}
use netorcai.Result.{Result}
use netorcai.Json.{Fields}
use netorcai.Outcome.{Outcome, returns, blocks, panics, ◌>>=◌}
use netorcai.Slices.{find_index, swap_last}
use netorcai.Messages.{MessageDoTurnAck}
use netorcai.State.{MessageDoTurnPlayerAction, Reason}
use netorcai.GameControl.Loop
use netorcai.GameControl.Loop.{Next, loops, returns_now, waits_finition, Round}
use netorcai.GameControl.{
  Game, Output, do_turn, kicks, exits, arms_timer, handle_gl_do_turn_ack_reception,
  handle_gl_forward_turn_to_clients, end_game,
}

-- Where the loop is in recording an action: at its `select`; behind the `range`, which found an action of the same
-- player at an index; behind the swap; or inside `append`, which has read the slice.
pub data Recording : Type 0 where
  idle : Recording
  found : ℕ → MessageDoTurnPlayerAction → Recording
  swapped : MessageDoTurnPlayerAction → Recording
  appending : List MessageDoTurnPlayerAction → MessageDoTurnPlayerAction → Recording

-- `sleeping` goroutines wait for the delay, `unreset` have sent DO_TURN and not yet emptied `playerActions`.
pub record Timers : Type 0 where
  pub turn_number : ℕ
  pub player_actions : List MessageDoTurnPlayerAction
  pub recording : Recording
  pub sleeping : ℕ
  pub unreset : ℕ

-- `records` is the next statement of the loop that records an action, `delay_over` the DO_TURN of a goroutine, and
-- `resets` its last statement.
pub data Event : Type 0 where
  can_terminate : Reason → Event
  player_action : MessageDoTurnPlayerAction → Event
  incoming : Result Fields → Event
  records : Event
  delay_over : Event
  resets : Event

abbrev pub first_timers : Timers
first_timers = record {
  turn_number = 0;
  player_actions = [];
  recording = idle;
  sleeping = 0;
  unreset = 0;
}

-- A DO_TURN without actions opens the game.
unfoldable pub start_timers : Round Timers
start_timers = record { outputs = do_turn [] ∷ []; next = loops first_timers }

-- The action is looked for by its player.
search : Option ℕ → MessageDoTurnPlayerAction → List MessageDoTurnPlayerAction → Recording
search none action actions = appending actions action
search (some i) action actions = found i action

on_action : MessageDoTurnPlayerAction → Timers → Round Timers
unfolding search
on_action action t = record {
  outputs = [];
  next = loops (record t {
    recording =
        search (find_index (λ a. eqb_ℤ a.player_id action.player_id) t.player_actions) action
          t.player_actions;
  });
}

-- `playerActions[len(playerActions)-1] = action`
pub store_last :
    MessageDoTurnPlayerAction
    → List MessageDoTurnPlayerAction
    → Outcome (List MessageDoTurnPlayerAction)
store_last action [] = panics
store_last action (a ∷ as_) = returns (set (a ∷ as_) (length (a ∷ as_) - 1) action)

-- `playerActions` is read anew in each statement.
record_action : Recording → Timers → Outcome (Round Timers)
unfolding store_last
record_action idle t = blocks
record_action (found i action) t = do
  actions ← swap_last i t.player_actions
  returns (record {
    outputs = [];
    next = loops (record t { player_actions = actions; recording = swapped action });
  })
record_action (swapped action) t = do
  actions ← store_last action t.player_actions
  returns (record {
    outputs = [];
    next = loops (record t { player_actions = actions; recording = idle });
  })
record_action (appending actions action) t = returns (record {
  outputs = [];
  next = loops (record t { player_actions = actions ++ (action ∷ []); recording = idle });
})

-- The goroutine wakes up: `sendDoTurn(glClient, playerActions)`.
wake_up : ℕ → Timers → Outcome (Round Timers)
wake_up zero t = blocks
wake_up (suc n) t = returns (record {
  outputs = do_turn t.player_actions ∷ [];
  next = loops (record t { sleeping = n; unreset = suc t.unreset });
})

-- `playerActions = playerActions[:0]`
reset_actions : ℕ → Timers → Outcome (Round Timers)
reset_actions zero t = blocks
reset_actions (suc n) t =
    returns (record { outputs = []; next = loops (record t { player_actions = []; unreset = n }) })

finish : MessageDoTurnAck → Game → Outcome (Round Timers)
finish ack game = do
  outputs ← end_game ack game
  returns (record { outputs = outputs; next = waits_finition })

-- The next turn, or the end of the game.
turn : MessageDoTurnAck → Game → Timers → Outcome (Round Timers)
unfolding finish
turn ack game t =
    let n = suc t.turn_number in
    if ltb_ℤ (pos n) game.nb_turns_max
    then returns (record {
      outputs = handle_gl_forward_turn_to_clients ack n game ∷ arms_timer ∷ [];
      next = loops (record t { turn_number = n; sleeping = suc t.sleeping });
    })
    else finish ack game

on_message : MessageDoTurnAck ⊎ Reason → Game → Timers → Outcome (Round Timers)
unfolding turn
on_message (inr reason) game t =
    returns (record { outputs = kicks reason ∷ exits 1 ∷ []; next = waits_finition })
on_message (inl ack) game t = turn ack game t

-- The cases of the `select` wait until the loop is at it.
at_select : Recording → Outcome (Round Timers) → Outcome (Round Timers)
at_select idle round = round
at_select _ round = blocks

unfoldable pub step : Game → Event → Timers → Outcome (Round Timers)
unfolding on_message on_action record_action wake_up reset_actions at_select
step game (can_terminate reason) t =
    at_select t.recording (returns (record { outputs = kicks reason ∷ []; next = returns_now }))
step game (player_action action) t = at_select t.recording (returns (on_action action t))
step game (incoming message) t =
    at_select t.recording
      (on_message (handle_gl_do_turn_ack_reception game.nb_players message) game t)
step game records t = record_action t.recording t
step game delay_over t = wake_up t.sleeping t
step game resets t = reset_actions t.unreset t

unfoldable pub run : Game → List Event → Timers → Outcome (Round Timers)
run game es s = Loop.run (step game) es s
