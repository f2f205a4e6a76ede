-- ===== src/GameInit.antt =====
-- control_gl.go: `handleGameLogic` up to the loop of the running game: the wait for the start order,
-- the copy of the shared state, the players' identifiers, DO_INIT and GAME_STARTS.
pub mod Begins
pub mod Closes
pub mod Plays
use netorcai.Prelude.{
  ℕ, ℤ, pos, minus_one, String, List, [], ◌∷◌, ◌++◌, map, length, ◌+◌, true, Bool, Option, none,
  some, ◌==◌, if◌then◌else◌,
}
use netorcai.Result.{Result, ok, err, Error}
use netorcai.Float64.{Float64}
use netorcai.Json.{Fields}
use netorcai.Outcome.{Outcome, returns, ◌>>=◌}
use netorcai.Messages.{MessageDoInitAck, read_do_init_ack_message}
use netorcai.Outgoing.{MessageDoInit, MessageGameStarts}
use netorcai.State.{
  ClientId, PlayerInformation, Infos, GlobalState, Reason, message_before_start, game_logic_error,
  cannot_send_do_init, cannot_read_do_init_ack, invalid_do_init_ack, do_init_ack_timeout,
}
use netorcai.GameLogic.{Numbered, number_players, sort_by_id}
use netorcai.GameControl.{Game, Output, do_init, game_starts, kicks, exits}
use netorcai.GameControl.Loop.{Next, loops, returns_now, waits_finition, Round}

-- The cases of the first `select`, and of the one behind DO_INIT.
pub data Order : Type 0 where
  start : Order
  can_terminate : Reason → Order
  incoming : Result Fields → Order

pub data Answer : Type 0 where
  answer_can_terminate : Reason → Answer
  answered : Result Fields → Answer
  timeout : Answer

-- What the loop of the game begins with.
pub record Begun : Type 0 where
  pub game : Game
  pub infos : Infos
  pub fast : Bool

fail : List Output → Reason → Round Begun
fail outputs reason = record {
  outputs = outputs ++ (kicks reason ∷ exits 1 ∷ []);
  next = waits_finition;
}

terminate : List Output → Reason → Round Begun
terminate outputs reason = record { outputs = outputs ++ (kicks reason ∷ []); next = returns_now }

-- What `client.nickname` and `Conn.RemoteAddr()` are.
pub record Address : Type 0 where
  pub nickname : String
  pub remote_address : String

-- Each player gets an information of its own.
unfoldable pub inform : (ClientId → Address) → List Numbered → Infos → Infos
inform address [] infos c = infos c
inform address (p ∷ ps) infos c =
    if p.0 == c
    then record {
      player_id = pos p.1;
      nickname = (address c).nickname;
      remote_address = (address c).remote_address;
      is_connected = true;
    }
    else inform address ps infos c

game_of : GlobalState → List Numbered → Game
game_of gs numbered = record {
  nb_players = pos (length gs.players + length gs.special_players);
  nb_turns_max = gs.nb_turns_max;
  all_players = map (λ p. p.0) numbered;
  visus = gs.visus;
  players_info = sort_by_id numbered;
}

start_message : GlobalState → MessageDoInitAck → ℤ → List ClientId → MessageGameStarts
start_message gs ack player_id players_info = record {
  player_id = player_id;
  nb_players = pos (length gs.players);
  nb_special_players = pos (length gs.special_players);
  nb_turns_max = gs.nb_turns_max;
  delay_first_turn = gs.milliseconds_before_first_turn;
  delay_turns = gs.milliseconds_between_turns;
  initial_game_state = ack.initial_game_state;
  players_info = players_info;
}

-- Players get no information on the players, visualizations get all of it and have no identifier.
starts_of : GlobalState → MessageDoInitAck → List Numbered → List (ClientId × MessageGameStarts)
unfolding start_message
starts_of gs ack numbered =
    map (λ p. (p.0, start_message gs ack (pos p.1) [])) numbered
    ++ map (λ c. (c, start_message gs ack minus_one (map (λ p. p.0) (sort_by_id numbered))))
        gs.visus

begin : List Output → GlobalState → Infos → List Numbered → Result MessageDoInitAck → Round Begun
unfolding fail game_of starts_of
begin outputs gs infos numbered (err e) = fail outputs (invalid_do_init_ack e)
begin outputs gs infos numbered (ok ack) = record {
  outputs = outputs ++ (game_starts (starts_of gs ack numbered) ∷ []);
  next = loops (record { game = game_of gs numbered; infos = infos; fast = gs.fast });
}

on_answer : List Output → GlobalState → Infos → List Numbered → Answer → Round Begun
unfolding fail terminate begin
on_answer outputs gs infos numbered (answer_can_terminate reason) = terminate outputs reason
on_answer outputs gs infos numbered (answered (err e)) = fail outputs (cannot_read_do_init_ack e)
on_answer outputs gs infos numbered (answered (ok content)) =
    begin outputs gs infos numbered (read_do_init_ack_message content)
on_answer outputs gs infos numbered timeout = fail outputs do_init_ack_timeout

-- `sent` is the outcome of `sendDoInit`.
on_do_init : Option Error → GlobalState → Infos → List Numbered → Answer → Round Begun
unfolding fail on_answer
on_do_init (some e) gs infos numbered answer = fail [] (cannot_send_do_init e)
on_do_init none gs infos numbered answer =
    on_answer
      (do_init (record {
        nb_players = pos (length gs.players);
        nb_special_players = pos (length gs.special_players);
        nb_turns_max = gs.nb_turns_max;
      })
        ∷ [])
      gs infos numbered answer

module _ (address : ClientId → Address) where
  -- `permutation` is what `rand.Perm(len(players))` returned.
  unfoldable pub handle_game_logic :
      Order → List ℕ → Option Error → Answer → GlobalState → Infos → Outcome (Round Begun)
  unfolding fail terminate on_do_init
  handle_game_logic (can_terminate reason) permutation sent answer gs infos =
      returns (terminate [] reason)
  handle_game_logic (incoming (ok content)) permutation sent answer gs infos =
      returns (fail [] message_before_start)
  handle_game_logic (incoming (err e)) permutation sent answer gs infos =
      returns (fail [] (game_logic_error e))
  handle_game_logic start permutation sent answer gs infos = do
    numbered ← number_players permutation gs.players gs.special_players
    returns (on_do_init sent gs (inform address numbered infos) numbered answer)
