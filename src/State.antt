-- ===== src/State.antt =====
-- The shared state: `Client` of network.go, `PlayerOrVisuClient` of control_pv.go, `GameLogicClient`
-- of control_gl.go and `GlobalState` of control.go. A pointer to a client, and to the one
-- `PlayerOrVisuClient` around it, is a `ClientId`.
use netorcai.Prelude.{ℕ, ℤ, String, List, Bool, Option}
use netorcai.Result.{Error}
use netorcai.Float64.{Float64}
use netorcai.Json.{Items}
use netorcai.Outcome.{Chan}

pub data GameState : Type 0 where
  not_running running finished : GameState

pub data ClientState : Type 0 where
  unlogged logged ready thinking kicked : ClientState

abbrev pub ClientId : Type 0
ClientId = ℕ

pub record Client : Type 0 where
  pub conn : ClientId
  pub nickname : String
  pub state : ClientState

pub record PlayerInformation : Type 0 where
  pub player_id : ℤ
  pub nickname : String
  pub remote_address : String
  pub is_connected : Bool

-- The store of the `PlayerInformation` objects: each belongs to one player, and a pointer to it is
-- that player's `ClientId`. Both the client and the game logic hold such pointers.
abbrev pub Infos : Type 0
Infos = ClientId → PlayerInformation

-- In `player_info`, `none` is the nil pointer.
pub record PlayerOrVisuClient : Type 0 where
  pub client : Client
  pub player_id : ℤ
  pub is_player : Bool
  pub is_special_player : Bool
  pub player_info : Option ClientId

pub record MessageDoTurnPlayerAction : Type 0 where
  pub player_id : ℤ
  pub turn_number : ℤ
  pub actions : Items

-- The game logic as the others see it: its channels.
pub record GameLogicClient : Type 0 where
  pub client : ClientId
  pub player_action : Chan MessageDoTurnPlayerAction
  pub player_disconnected : Chan ℤ
  pub start : Chan ℕ

pub record GlobalState : Type 0 where
  pub game_state : GameState
  pub game_logic : List GameLogicClient
  pub players : List ClientId
  pub special_players : List ClientId
  pub visus : List ClientId
  pub nb_players_max : ℤ
  pub nb_special_players_max : ℤ
  pub nb_visus_max : ℤ
  pub nb_turns_max : ℤ
  pub autostart : Bool
  pub fast : Bool
  pub milliseconds_before_first_turn : Float64
  pub milliseconds_between_turns : Float64

-- The texts of KICK messages, with the error that `%v` prints.
pub data Reason : Type 0 where
  invalid_first_message : Error → Reason
  game_has_been_started players_full special_players_full visus_full : Reason
  game_logic_present login_ack_failed : Reason
  cannot_send_game_starts cannot_send_game_ends cannot_send_turn cannot_send_do_init :
      Error → Reason
  cannot_read_turn_ack invalid_turn_ack : Error → Reason
  turn_ack_not_thinking : Reason
  message_before_start do_init_ack_timeout : Reason
  game_logic_error cannot_read_do_init_ack invalid_do_init_ack : Error → Reason
  cannot_read_do_turn_ack invalid_do_turn_ack : Error → Reason
  game_is_finished netorcai_abort : Reason
