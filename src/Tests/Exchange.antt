-- ===== src/Tests/Exchange.antt =====
-- A turn on its way to a player and back, and the messages of the game on the wire.
use netorcai.Prelude.{
  ℕ, ℤ, pos, minus_one, ◌≡◌, refl, false, none, some, List, [], ◌∷◌, ◌++◌, arith,
}
use netorcai.Result.{ok, unsupported_value}
use netorcai.Float64.{nan, to_int}
use netorcai.Json.{Fields, Items, nil, end, lookup}
use netorcai.ReadUtil.{read_string, read_int, read_object, read_array}
use netorcai.Outcome.{returns}
use netorcai.Network.{put_uint32, send_message}
use netorcai.Messages.{read_do_turn_ack_message, check_message_type}
use netorcai.GoClient.{read_message}
use netorcai.Outgoing.{MessageGameStarts, MessageDoTurn}
use netorcai.Outgoing.Wire.{turn_object, do_turn_object, fields_supported, players_info_items}
use netorcai.Outgoing.Sending.{error_of, send_turn, send_do_turn, send_game_starts}
use netorcai.Outgoing.Reading.{
  turn_ack_object, IsTurn, read_actions, run-send_turn, read_actions-send_do_turn,
  step-game_starts_unsupported,
}
use netorcai.State.{ready, MessageDoTurnPlayerAction, cannot_send_game_starts}
use netorcai.PlayerOrVisu
use netorcai.PlayerOrVisu.{
  Handler, new_turn, incoming, game_starts, sent_game_starts, sent_turn, forwarded, loops,
  leaves_by_error, start_handler, step, run,
}
use netorcai.GameControl.Loop
use netorcai.GameControl.Fast
use netorcai.GameControl.Fast.{
  Fast, waiting_ack, collecting, start_fast, are_all_values_true, collect,
}
use netorcai.GameControl.{handle_gl_forward_turn_to_clients, handle_gl_do_turn_ack_reception}
use netorcai.Lockstep.{System, Steps, done, more, acknowledged, outputs_to}
use netorcai.Lockstep.Channels.{occurrences}
use netorcai.Lockstep.Invariant.{Lockstep, Steps-from_start}
use netorcai.Tests.{bot, player, game_logic, infos, turn, starts, action, do_turn_ack}
use netorcai.Tests.Games.{game}

abbrev marshal : Fields → List ℕ
marshal o = b'{' ∷ b'}' ∷ []

abbrev bytes : List ℕ
bytes = 3 ∷ 0 ∷ 0 ∷ 0 ∷ b'{' ∷ b'}' ∷ b'\n' ∷ []

abbrev playing : Handler
playing = record {
  pv = record player { client = record bot { state = ready } };
  turn_buffer = [];
  last_turn_number_sent = pos 0;
  game_logic = some 1;
}

run-send_turn_example :
    (o : Fields) × (n : ℤ) × (read_message (λ cs. some (turn_object infos (turn 1))) (bytes ++ [])
      ≡ ok (o, []))
    × (read_int o "turn_number" ≡ ok n)
    × IsTurn o infos (turn 1)
    × (run (game_logic ∷ []) playing (
          new_turn (turn 1) (error_of (send_turn marshal none infos (turn 1)))
          ∷ incoming (ok (turn_ack_object n nil)) none
          ∷ [])
        ≡ returns (record {
          outputs = sent_turn (turn 1) ∷ forwarded (action 0 1) ∷ [];
          next = loops (record playing { last_turn_number_sent = pos 1 });
        }))
unfolding send_turn turn_object fields_supported send_message put_uint32 players_info_items
run-send_turn_example =
    run-send_turn marshal (λ cs. some (turn_object infos (turn 1))) none infos (turn 1) bytes []
      (game_logic ∷ []) nil playing 1 refl (omega arith) refl refl refl refl refl

abbrev two_actions : List MessageDoTurnPlayerAction
two_actions = action 0 1 ∷ action 1 1 ∷ []

abbrev do_turn : MessageDoTurn
do_turn = record { player_actions = two_actions }

read_actions-send_do_turn_example :
    (o : Fields) × (items : Items) × (read_message
        (λ cs. some (do_turn_object do_turn))
        (bytes ++ [])
      ≡ ok (o, []))
    × (read_string o "message_type" ≡ ok "DO_TURN")
    × (read_array o "player_actions" ≡ ok items)
    × (read_actions items ≡ ok two_actions)
unfolding send_do_turn do_turn_object fields_supported send_message put_uint32
read_actions-send_do_turn_example =
    read_actions-send_do_turn marshal (λ cs. some (do_turn_object do_turn)) none two_actions bytes
      [] refl (omega arith) refl

abbrev never : MessageGameStarts
never = record starts { delay_turns = nan }

step-game_starts_unsupported_example :
    step
      (game_logic ∷ [])
      (game_starts never (error_of (send_game_starts marshal none infos never)))
      (start_handler player)
    ≡ returns (record {
      outputs = [];
      next = leaves_by_error (start_handler player) (cannot_send_game_starts unsupported_value);
    })
step-game_starts_unsupported_example =
    step-game_starts_unsupported marshal none infos never (game_logic ∷ []) (start_handler player)
      refl

-- The game begins, and its first turn is computed.
abbrev fresh : Fast
fresh = record {
  phase = waiting_ack;
  turn_number = 0;
  player_actions = [];
  connected = pos 0 ∷ pos 1 ∷ [];
  received = [];
}

abbrev begun : Fast
begun = record fresh {
  phase = collecting;
  turn_number = 1;
  received = (pos 0, false) ∷ (pos 1, false) ∷ [];
}

abbrev welcomed : Handler
welcomed = record playing { last_turn_number_sent = minus_one }

abbrev welcome : PlayerOrVisu.Round
welcome = record { outputs = sent_game_starts starts ∷ []; next = loops welcomed }

abbrev first_turn : Loop.Round Fast
first_turn = record {
  outputs =
      handle_gl_forward_turn_to_clients (record { winner_player_id = pos 1; game_state = end }) 1
        game
      ∷ [];
  next = Loop.loops begun;
}

abbrev begins : System
begins = record { loop = fresh; handler = welcomed; new_turn = []; player_action = [] }

abbrev after : System
after = record begins { loop = begun; new_turn = outputs_to 7 first_turn.outputs }

to_after : Steps game (game_logic ∷ []) 7 (pos 0) begins after
unfolding Fast.step handle_gl_do_turn_ack_reception read_do_turn_ack_message check_message_type
    read_string read_int read_object lookup to_int handle_gl_forward_turn_to_clients
    are_all_values_true
to_after =
    more begins begins after (done begins)
      (acknowledged (ok do_turn_ack) begins first_turn begun refl refl)

Steps-from_start_example : Lockstep (pos 0) after
unfolding start_fast step start_handler occurrences
Steps-from_start_example =
    Steps-from_start game (game_logic ∷ []) 7 0 2 starts player fresh welcomed welcome after
      (omega arith) refl refl refl refl refl refl to_after
