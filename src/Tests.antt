-- ===== src/Tests.antt =====
-- Small inputs: a few clients, messages and states, and the theorems at them.
pub mod Messages
pub mod Clients
pub mod Games
pub mod Server
pub mod Prompt
pub mod Lobby
pub mod Exchange
use netorcai.Prelude.{ℕ, ℤ, pos, minus_one, String, List, [], ◌∷◌, false, true, none, some}
use netorcai.Float64.{Float64, of_int}
use netorcai.Json.{Fields, end, field, text, number, array, object, nil}
use netorcai.Outcome.{make_chan}
use netorcai.Outgoing.{MessageTurn, MessageGameStarts}
use netorcai.State.{
  unlogged, logged, not_running, running, Client, PlayerOrVisuClient, PlayerInformation, Infos,
  GameLogicClient, GlobalState, MessageDoTurnPlayerAction,
}

abbrev pub bot : Client
bot = record { conn = 7; nickname = "bot"; state = unlogged }

abbrev pub player : PlayerOrVisuClient
player = record {
  client = record { conn = 7; nickname = "bot"; state = logged };
  player_id = pos 0;
  is_player = true;
  is_special_player = false;
  player_info = some 7;
}

abbrev pub game_logic : GameLogicClient
game_logic = record {
  client = 1;
  player_action = make_chan 1;
  player_disconnected = make_chan 1;
  start = make_chan 1;
}

-- Two players, one place left; the game logic is there.
abbrev pub lobby : GlobalState
lobby = record {
  game_state = not_running;
  game_logic = game_logic ∷ [];
  players = 7 ∷ 8 ∷ [];
  special_players = [];
  visus = [];
  nb_players_max = pos 3;
  nb_special_players_max = pos 0;
  nb_visus_max = pos 0;
  nb_turns_max = pos 2;
  autostart = true;
  fast = true;
  milliseconds_before_first_turn = of_int (pos 50);
  milliseconds_between_turns = of_int (pos 50);
}

abbrev pub full_lobby : GlobalState
full_lobby = record lobby { nb_players_max = pos 2 }

abbrev pub infos : Infos
infos c = record {
  player_id = pos 0;
  nickname = "bot";
  remote_address = "local";
  is_connected = true;
}

abbrev pub login : Fields
login = field "message_type" (text "LOGIN") (
    field "nickname" (text "bot")
      (field "role" (text "player") (field "metaprotocol_version" (text "2.0.1") end)))

abbrev pub all_clients : Fields
all_clients = field "all_clients" (object end) end

abbrev pub do_turn_ack : Fields
do_turn_ack = field "message_type" (text "DO_TURN_ACK") (
    field "winner_player_id" (number (of_int (pos 1)))
      (field "game_state" (object all_clients) end))

abbrev pub do_init_ack : Fields
do_init_ack =
    field "message_type" (text "DO_INIT_ACK") (field "initial_game_state" (object all_clients) end)

abbrev pub turn_ack : Fields
turn_ack =
    field "message_type" (text "TURN_ACK")
      (field "turn_number" (number (of_int (pos 0))) (field "actions" (array nil) end))

abbrev pub turn : ℕ → MessageTurn
turn n = record { turn_number = pos n; game_state = end; players_info = [] }

abbrev pub starts : MessageGameStarts
starts = record {
  player_id = pos 0;
  nb_players = pos 1;
  nb_special_players = pos 0;
  nb_turns_max = pos 2;
  delay_first_turn = of_int (pos 50);
  delay_turns = of_int (pos 50);
  initial_game_state = end;
  players_info = [];
}

abbrev pub action : ℕ → ℕ → MessageDoTurnPlayerAction
action p n = record { player_id = pos p; turn_number = pos n; actions = nil }
