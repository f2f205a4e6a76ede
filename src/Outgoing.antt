-- ===== src/Outgoing.antt =====
-- messages.go: the messages that netorcai sends. The constant `message_type` is the constructor, and
-- `players_info` holds pointers into the store of the players' information.
pub mod Wire
pub mod Sending
pub mod Reading
use netorcai.Prelude.{ℤ, String, List}
use netorcai.Float64.{Float64}
use netorcai.Json.{Fields}
use netorcai.State.{ClientId, MessageDoTurnPlayerAction, Reason}

pub record MessageLoginAck : Type 0 where
  pub metaprotocol_version : String

pub record MessageGameStarts : Type 0 where
  pub player_id : ℤ
  pub nb_players : ℤ
  pub nb_special_players : ℤ
  pub nb_turns_max : ℤ
  pub delay_first_turn : Float64
  pub delay_turns : Float64
  pub initial_game_state : Fields
  pub players_info : List ClientId

pub record MessageGameEnds : Type 0 where
  pub winner_player_id : ℤ
  pub game_state : Fields

pub record MessageTurn : Type 0 where
  pub turn_number : ℤ
  pub game_state : Fields
  pub players_info : List ClientId

pub record MessageDoInit : Type 0 where
  pub nb_players : ℤ
  pub nb_special_players : ℤ
  pub nb_turns_max : ℤ

pub record MessageDoTurn : Type 0 where
  pub player_actions : List MessageDoTurnPlayerAction

pub record MessageKick : Type 0 where
  pub kick_reason : Reason
