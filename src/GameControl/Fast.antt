-- ===== src/GameControl/Fast.antt =====
-- `gameLogicGameControlFast`: the loop that starts a turn when every connected player has played.
-- One `step` is one round of one of its two `select`s: while it waits for the game logic, and while
-- it collects the actions of a turn.
pub mod Received
pub mod Rounds
pub mod Collecting
pub mod Play
use netorcai.Prelude.{
  ℕ, zero, suc, ◌+◌, ℤ, pos, ltb_ℤ, eqb_ℤ, List, [], ◌∷◌, ◌++◌, map, Bool, true, false, ◌&&◌, not,
  Option, none, some, if◌then◌else◌, ◌⊎◌, inl, inr,
}
use netorcai.Result.{Result}
use netorcai.Json.{Fields}
use netorcai.Outcome.{Outcome, returns, blocks, panics, ◌>>=◌}
use netorcai.Messages.{MessageDoTurnAck}
use netorcai.State.{MessageDoTurnPlayerAction, Reason}
use netorcai.GameControl.Loop
use netorcai.GameControl.Loop.{Next, loops, returns_now, waits_finition, Round}
use netorcai.GameControl.{
  Game, Output, do_turn, kicks, exits, handle_gl_do_turn_ack_reception,
  handle_gl_forward_turn_to_clients, end_game,
}

pub data Phase : Type 0 where
  waiting_ack collecting : Phase

-- The keys of `connectedPlayers`, and `actionReceived` as a list of its entries.
pub record Fast : Type 0 where
  pub phase : Phase
  pub turn_number : ℕ
  pub player_actions : List MessageDoTurnPlayerAction
  pub connected : List ℤ
  pub received : List (ℤ × Bool)

pub data Event : Type 0 where
  can_terminate : Reason → Event
  incoming : Result Fields → Event
  player_action : MessageDoTurnPlayerAction → Event
  player_disconnected : ℤ → Event

-- The identifiers from 0 to `initialTotalNbPlayers - 1`.
all_ids : ℕ → ℕ → List ℤ
all_ids zero id = []
all_ids (suc n) id = pos id ∷ all_ids n (suc id)

-- A DO_TURN without actions opens the game.
unfoldable pub start_fast : ℕ → Round Fast
unfolding all_ids
start_fast nb_players = record {
  outputs = do_turn [] ∷ [];
  next = loops (record {
    phase = waiting_ack;
    turn_number = 0;
    player_actions = [];
    connected = all_ids nb_players 0;
    received = [];
  });
}

-- `m[id] = true`
unfoldable pub put : ℤ → List (ℤ × Bool) → List (ℤ × Bool)
put id [] = (id, true) ∷ []
put id ((k, v) ∷ es) = let rest = put id es in if eqb_ℤ k id then (k, true) ∷ es else (k, v) ∷ rest

unfoldable pub are_all_values_true : List (ℤ × Bool) → Bool
are_all_values_true [] = true
are_all_values_true ((k, v) ∷ es) = v && are_all_values_true es

-- Whether the key is in `connectedPlayers`.
unfoldable pub is_connected : ℤ → List ℤ → Bool
is_connected id [] = false
is_connected id (k ∷ ks) = let rest = is_connected id ks in if eqb_ℤ k id then true else rest

-- `delete(connectedPlayers, id)`
unfoldable pub delete : ℤ → List ℤ → List ℤ
delete id [] = []
delete id (k ∷ ks) = let rest = delete id ks in if eqb_ℤ k id then rest else k ∷ rest

-- The test of the inner loop: it collects on, or the actions go to the game logic.
unfoldable pub collect : List Output → Fast → Round Fast
unfolding are_all_values_true
collect outputs f =
    if are_all_values_true f.received
    then record {
      outputs = outputs ++ (do_turn f.player_actions ∷ []);
      next = loops (record f { phase = waiting_ack; player_actions = [] });
    }
    else record { outputs = outputs; next = loops (record f { phase = collecting }) }

finish : MessageDoTurnAck → Game → Outcome (Round Fast)
finish ack game = do
  outputs ← end_game ack game
  returns (record { outputs = outputs; next = waits_finition })

-- The end of the game, or the next turn, for which nobody has played yet.
turn : MessageDoTurnAck → Game → Fast → Outcome (Round Fast)
unfolding finish collect
turn ack game f =
    let n = suc f.turn_number in
    if ltb_ℤ (pos n) game.nb_turns_max
    then returns (
        collect (handle_gl_forward_turn_to_clients ack n game ∷ [])
          (record f { turn_number = n; received = map (λ id. (id, false)) f.connected }))
    else finish ack game

on_message : MessageDoTurnAck ⊎ Reason → Game → Fast → Outcome (Round Fast)
unfolding turn
on_message (inr reason) game f =
    returns (record { outputs = kicks reason ∷ exits 1 ∷ []; next = waits_finition })
on_message (inl ack) game f = turn ack game f

-- An action of a player that is not connected counts for nothing.
on_action : MessageDoTurnPlayerAction → Fast → Round Fast
unfolding is_connected put collect
on_action action f = collect [] (record f {
  received = put action.player_id f.received;
  player_actions =
      if is_connected action.player_id f.connected
      then f.player_actions ++ (action ∷ [])
      else f.player_actions;
})

on_disconnection : ℤ → Fast → Round Fast
unfolding delete put collect
on_disconnection id f =
    collect [] (record f { received = put id f.received; connected = delete id f.connected })

-- A case that the `select` of the phase does not have is not taken: it `blocks`.
while_waiting : Phase → Outcome (Round Fast) → Outcome (Round Fast)
while_waiting waiting_ack round = round
while_waiting collecting round = blocks

while_collecting : Phase → Round Fast → Outcome (Round Fast)
while_collecting waiting_ack round = blocks
while_collecting collecting round = returns round

unfoldable pub step : Game → Event → Fast → Outcome (Round Fast)
unfolding while_waiting while_collecting on_message on_action on_disconnection
step game (can_terminate reason) f =
    returns (record { outputs = kicks reason ∷ []; next = returns_now })
step game (incoming message) f =
    while_waiting f.phase
      (on_message (handle_gl_do_turn_ack_reception game.nb_players message) game f)
step game (player_action action) f = while_collecting f.phase (on_action action f)
step game (player_disconnected id) f = while_collecting f.phase (on_disconnection id f)

unfoldable pub run : Game → List Event → Fast → Outcome (Round Fast)
run game es s = Loop.run (step game) es s
