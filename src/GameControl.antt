-- ===== src/GameControl.antt =====
-- control_gl.go: what the two loops of a running game share. `send` on the channels of the clients
-- and writes to the game logic's socket are outputs.
pub mod Finish
pub mod Loop
pub mod Turns
pub mod Mailboxes
pub mod Timers
pub mod Fast
use netorcai.Prelude.{
  ℕ, ◌+ℤ◌, ℤ, pos, negsuc, minus_one, eqb_ℤ, List, [], ◌∷◌, ◌++◌, map, Option, none, some,
  get_elem?, if◌then◌else◌, ◌⊎◌, inl, inr,
}
use netorcai.Result.{Result, ok, err}
use netorcai.Json.{Fields}
use netorcai.Outcome.{Outcome, returns, panics, or_panic, ◌>>=◌}
use netorcai.Messages.{MessageDoTurnAck, read_do_turn_ack_message}
use netorcai.Outgoing.{MessageTurn, MessageGameEnds, MessageDoInit, MessageGameStarts}
use netorcai.State.{
  ClientId, MessageDoTurnPlayerAction, Reason, cannot_read_do_turn_ack, invalid_do_turn_ack,
  game_is_finished,
}
use netorcai.GameLogic.{Numbered}

-- What does not change in a game: the clients that it began with, the sorted information on its
-- players, and the number of turns.
pub record Game : Type 0 where
  pub nb_players : ℤ
  pub nb_turns_max : ℤ
  pub all_players : List ClientId
  pub visus : List ClientId
  pub players_info : List Numbered

-- The clients that the game began with.
abbrev pub clients : Game → List ClientId
clients game = game.all_players ++ game.visus

-- `sendDoInit`, `sendDoTurn`, a send on `gameStarts`, `newTurn` or `gameEnds`, `Kick` of the game logic, `onexit <- code`, and
-- the goroutine that waits for the next turn.
pub data Output : Type 0 where
  do_init : MessageDoInit → Output
  game_starts : List (ClientId × MessageGameStarts) → Output
  do_turn : List MessageDoTurnPlayerAction → Output
  turns : List (ClientId × MessageTurn) → Output
  game_ends : List (ClientId × MessageGameEnds) → Output
  kicks : Reason → Output
  exits : ℕ → Output
  arms_timer : Output

or_invalid : Result MessageDoTurnAck → MessageDoTurnAck ⊎ Reason
or_invalid (ok ack) = inl ack
or_invalid (err e) = inr (invalid_do_turn_ack e)

read_ack : ℤ → Result Fields → MessageDoTurnAck ⊎ Reason
unfolding or_invalid
read_ack nb_players (err e) = inr (cannot_read_do_turn_ack e)
read_ack nb_players (ok content) = or_invalid (read_do_turn_ack_message content nb_players)

-- `handleGLDoTurnAckReception`: the acknowledgement, or the reason for the KICK of the game logic.
unfoldable pub handle_gl_do_turn_ack_reception : ℤ → Result Fields → MessageDoTurnAck ⊎ Reason
unfolding read_ack
handle_gl_do_turn_ack_reception nb_players message = read_ack nb_players message

unfoldable pub turn_for : MessageDoTurnAck → ℕ → List ClientId → ClientId → ClientId × MessageTurn
turn_for ack turn_number infos c = (
  c,
  record {
    turn_number = pos turn_number +ℤ minus_one;
    game_state = ack.game_state;
    players_info = infos;
  },
)

-- Players get no information on the players, visualizations get all of it.
unfoldable pub turns_for : MessageDoTurnAck → ℕ → Game → List (ClientId × MessageTurn)
unfolding turn_for
turns_for ack turn_number game =
    map (turn_for ack turn_number []) game.all_players
    ++ map (turn_for ack turn_number (map (λ p. p.0) game.players_info)) game.visus

unfoldable pub handle_gl_forward_turn_to_clients : MessageDoTurnAck → ℕ → Game → Output
unfolding turns_for
handle_gl_forward_turn_to_clients ack turn_number game = turns (turns_for ack turn_number game)

-- The entry of the winner, which the log names; -1 stands for no winner. A negative index panics
-- like one that is too large.
unfoldable pub winner_entry : ℤ → List Numbered → Outcome (Option Numbered)
winner_entry (negsuc n) infos = if eqb_ℤ (negsuc n) minus_one then returns none else panics
winner_entry (pos w) infos = do p ← or_panic (get_elem? infos w); returns (some p)

end_for : MessageDoTurnAck → ClientId → ClientId × MessageGameEnds
end_for ack c = (c, record { winner_player_id = ack.winner_player_id; game_state = ack.game_state })

-- The entry that is logged and the outputs.
unfoldable pub handle_gl_game_finished :
    MessageDoTurnAck → Game → Outcome (Option Numbered × List Output)
unfolding winner_entry end_for
handle_gl_game_finished ack game = do
  winner ← winner_entry ack.winner_player_id game.players_info
  returns (
    winner,
    game_ends (map (end_for ack) game.all_players ++ map (end_for ack) game.visus)
        ∷ kicks game_is_finished
        ∷ [],
  )

-- The end of the game with the exit code that the main goroutine gets.
unfoldable pub end_game : MessageDoTurnAck → Game → Outcome (List Output)
unfolding handle_gl_game_finished
end_game ack game = do
  (winner, outputs) ← handle_gl_game_finished ack game
  returns (outputs ++ (exits 0 ∷ []))
