-- ===== src/Tests/Games.antt =====
-- A game with two players.
use mathlib.Core.List.Perm
use netorcai.Prelude.{pos, ◌≡◌, refl, inl, inr, false, List, [], ◌∷◌, map, Option}
use netorcai.Json.{lookup, end}
use netorcai.ReadUtil.{read_string, read_int, read_object}
use netorcai.Float64.{to_int}
use netorcai.Outcome.{returns}
use netorcai.Messages.{
  MessageDoTurnAck, read_do_turn_ack_message, read_do_init_ack_message, check_message_type,
}
use netorcai.Outgoing.{MessageGameEnds}
use netorcai.State.{ClientId, game_is_finished}
use netorcai.GameLogic.{Numbered, number_players, sort_by_id}
use netorcai.GameLogic.Sorting.{ids}
use netorcai.GameLogic.Numbering.{range, number_players-ids}
use netorcai.GameControl.{Game, game_ends, kicks, handle_gl_game_finished}
use netorcai.GameControl.Finish.{Names, handle_gl_game_finished_returns}
use netorcai.Result.{ok}
use netorcai.Prelude.{none, ◌++◌}
use netorcai.GameControl.Loop
use netorcai.GameControl.Loop.{Round}
use netorcai.GameControl.Turns.{Counted}
use netorcai.GameControl.Timers
use netorcai.GameControl.Timers.{Timers, idle}
use netorcai.Slices.{find_index}
use netorcai.Outcome.{panics}
use netorcai.GameControl.{clients, arms_timer, do_turn}
use netorcai.GameControl.Timers.Race.{reset_while_replacing, reset_while_appending}
use netorcai.GameControl.Fast
use netorcai.Prelude.{zero, suc, if◌then◌else◌, ◌==◌, arith, ℕ}
use netorcai.Outcome.{blocks}
use netorcai.Outgoing.{MessageTurn}
use netorcai.GameControl.{turns_for}
use netorcai.GameControl.Mailboxes.{Mailboxes, deliver, deliver-turns_for}
use netorcai.Tests.{turn}
use netorcai.GameControl.{handle_gl_forward_turn_to_clients, handle_gl_do_turn_ack_reception}
use netorcai.GameControl.Fast.{collect}
use netorcai.GameControl.Fast.{
  Fast, Event, player_action, player_disconnected, waiting_ack, collecting, are_all_values_true,
  put, collect,
}
use netorcai.GameControl.Fast.Received.{Waits}
use netorcai.GameControl.Fast.Collecting.{TurnOver, run-Waits, run-TurnOver}
use netorcai.GameControl.Fast.Play.{run-Counted_fast}
use netorcai.GameInit.{Address, start, answered, Begun, handle_game_logic}
use netorcai.GameInit.Begins.{Begins, handle_game_logic-Begins}
use netorcai.GameInit.{incoming}
use netorcai.GameInit.Closes.{Closes}
use netorcai.GameInit.Plays.{Plays}
use netorcai.GameControl.{exits}
use netorcai.State.{message_before_start}
use netorcai.Tests.{do_turn_ack, do_init_ack, action, full_lobby, infos}

number_players-ids_example :
    (numbered : List Numbered) × (number_players (0 ∷ []) (7 ∷ []) (9 ∷ []) ≡ returns numbered)
    × (map (λ p. p.0) numbered ≡ 7 ∷ 9 ∷ [])
    × (ids (sort_by_id numbered) ≡ range 0 2)
number_players-ids_example = number_players-ids (0 ∷ []) (7 ∷ []) (9 ∷ []) refl Perm.rfl

abbrev pub game : Game
game = record {
  nb_players = pos 2;
  nb_turns_max = pos 2;
  all_players = 7 ∷ 9 ∷ [];
  visus = 5 ∷ [];
  players_info = (9, 0) ∷ (7, 1) ∷ [];
}

abbrev won : MessageDoTurnAck
won = record { winner_player_id = pos 1; game_state = end }

handle_gl_game_finished_returns_example :
    (winner : Option Numbered) × (sends : List (ClientId × MessageGameEnds))
    × (handle_gl_game_finished won game
        ≡ returns (winner, game_ends sends ∷ kicks game_is_finished ∷ []))
    × Names (pos 1) winner
    × (map (λ s. s.0) sends ≡ 7 ∷ 9 ∷ 5 ∷ [])
unfolding read_do_turn_ack_message read_string read_int read_object lookup check_message_type to_int
handle_gl_game_finished_returns_example =
    handle_gl_game_finished_returns game 2 do_turn_ack won
      (record { counted = refl; ordered = refl }) refl

-- The last turn of two: the second DO_TURN_ACK ends the game.
abbrev acks : List Timers.Event
acks = Timers.incoming (ok do_turn_ack) ∷ Timers.incoming (ok do_turn_ack) ∷ []

-- The first turn, and the goroutine that waits for the next one.
abbrev first_timed_turn : Round Timers
first_timed_turn = record {
  outputs = handle_gl_forward_turn_to_clients won 1 game ∷ arms_timer ∷ [];
  next = Loop.loops (record {
    turn_number = 1;
    player_actions = [];
    recording = idle;
    sleeping = 1;
    unreset = 0;
  });
}

-- The player 0 has an action in the list, and one goroutine has just sent it.
abbrev just_sent : Timers
just_sent = record {
  turn_number = 1;
  player_actions = action 0 0 ∷ [];
  recording = idle;
  sleeping = 0;
  unreset = 1;
}

reset_while_replacing_example :
    Timers.run game
      (Timers.player_action (action 0 1) ∷ Timers.resets ∷ Timers.records ∷ [])
      just_sent
    ≡ panics
unfolding find_index
reset_while_replacing_example = reset_while_replacing game (action 0 1) just_sent 0 0 refl refl refl

abbrev two_asleep : Timers
two_asleep = record {
  turn_number = 1;
  player_actions = action 0 0 ∷ [];
  recording = idle;
  sleeping = 2;
  unreset = 0;
}

sent_again :
    Timers.run game
      (Timers.player_action (action 1 1)
        ∷ Timers.delay_over
        ∷ Timers.resets
        ∷ Timers.records
        ∷ Timers.delay_over
        ∷ [])
      two_asleep
    ≡ returns (record {
      outputs = do_turn (action 0 0 ∷ []) ∷ do_turn (action 0 0 ∷ action 1 1 ∷ []) ∷ [];
      next = Loop.loops (record {
        turn_number = 1;
        player_actions = action 0 0 ∷ action 1 1 ∷ [];
        recording = idle;
        sleeping = 0;
        unreset = 1;
      });
    })
unfolding find_index
sent_again = reset_while_appending game (action 1 1) two_asleep 0 0 refl refl refl refl

-- Two players are connected, and nobody has played.
abbrev collects : Fast
collects = record {
  phase = collecting;
  turn_number = 1;
  player_actions = [];
  connected = pos 0 ∷ pos 1 ∷ [];
  received = (pos 0, false) ∷ (pos 1, false) ∷ [];
}

run-Waits_example :
    (f' : Fast) × (Fast.run game (player_action (action 0 0) ∷ []) collects
      ≡ returns (record { outputs = []; next = Loop.loops f' }))
    × (f'.phase ≡ collecting)
    × Waits (pos 1) f'.received
run-Waits_example =
    run-Waits game (pos 1) (player_action (action 0 0) ∷ []) collects refl (inr (inl (refl, refl)))
      ((λ e. cc), tt) refl

run-TurnOver_example :
    (played : List Event) × (rest : List Event) × (player_action (action 0 0)
        ∷ player_disconnected (pos 1)
        ∷ []
      ≡ played ++ rest)
    × TurnOver game played collects
unfolding are_all_values_true
run-TurnOver_example =
    run-TurnOver game (player_action (action 0 0) ∷ player_disconnected (pos 1) ∷ []) collects refl
      ((refl, tt), (tt, tt)) refl ((λ e. cc), ((λ e. cc), tt)) (refl, (refl, tt))

abbrev opened : Fast
opened = record {
  phase = waiting_ack;
  turn_number = 0;
  player_actions = [];
  connected = pos 0 ∷ pos 1 ∷ [];
  received = [];
}

-- The first turn is handed to the clients, and the loop collects.
abbrev first_turn : Round Fast
first_turn = record {
  outputs = handle_gl_forward_turn_to_clients won 1 game ∷ [];
  next = Loop.loops collects;
}

run-Counted_fast_example : Counted (clients game) (pos 2) 0 first_turn.outputs
unfolding Fast.run Fast.step Loop.run handle_gl_do_turn_ack_reception collect are_all_values_true
    read_do_turn_ack_message read_string read_int read_object lookup check_message_type to_int
run-Counted_fast_example =
    run-Counted_fast game (Fast.incoming (ok do_turn_ack) ∷ []) opened first_turn refl refl

abbrev nowhere : ClientId → Address
nowhere c = record { nickname = "bot"; remote_address = "local" }

handle_game_logic-Begins_example :
    (r : Round Begun) × (handle_game_logic nowhere start
        (1 ∷ 0 ∷ [])
        none
        (answered (ok do_init_ack))
        full_lobby
        infos
      ≡ returns r)
    × Begins full_lobby r
unfolding read_do_init_ack_message read_string read_object lookup check_message_type
handle_game_logic-Begins_example =
    handle_game_logic-Begins nowhere (1 ∷ 0 ∷ []) do_init_ack full_lobby infos
      (record { initial_game_state = end }) refl (Perm.swap 0 1 []) refl

abbrev too_early : Round Begun
too_early = record {
  outputs = kicks message_before_start ∷ exits 1 ∷ [];
  next = Loop.waits_finition;
}

-- The player 7 has left a hundred turns ago.
backlog : ℕ → List MessageTurn
backlog zero = []
backlog (suc n) = turn n ∷ backlog n

abbrev boxes : Mailboxes
boxes c = record { capacity = 100; queue = if 7 == c then backlog 100 else [] }

deliver-turns_for_example : deliver (turns_for won 101 game) boxes ≡ blocks
unfolding backlog
deliver-turns_for_example = deliver-turns_for won 101 game boxes 7 (inl refl) (omega arith)
