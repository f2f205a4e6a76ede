-- ===== src/Outgoing/Sending.antt =====
-- control.go, control_pv.go and control_gl.go: the functions that encode a message and write it. `json.Marshal`, on
-- what it has a text for, is a parameter.
use netorcai.Prelude.{ℕ, ℤ, String, List, Option, none, some, if◌then◌else◌}
use netorcai.Result.{Result, ok, err, Error, unsupported_value}
use netorcai.Json.{Fields}
use netorcai.Network.{Stage, send_message}
use netorcai.Version.{version}
use netorcai.State.{Infos, MessageDoTurnPlayerAction}
use netorcai.Outgoing.{MessageGameStarts, MessageGameEnds, MessageTurn}
use netorcai.Outgoing.Wire.{
  login_ack_object, game_starts_object, game_ends_object, turn_object, do_init_object,
  do_turn_object, kick_object, fields_supported,
}

-- The error that a caller sees.
abbrev pub error_of : Result (List ℕ) → Option Error
error_of (ok bytes) = none
error_of (err e) = some e

module _ (marshal : Fields → List ℕ) where
  -- `content, err := json.Marshal(msg); if err == nil { err = sendMessage(client, content) }`
  unfoldable pub send_object : Option Stage → Fields → Result (List ℕ)
  send_object fault o =
      if fields_supported o then send_message fault (marshal o) else err unsupported_value

  unfoldable pub send_login_ack : Option Stage → Result (List ℕ)
  unfolding send_object
  send_login_ack fault =
      send_object fault (login_ack_object (record { metaprotocol_version = version }))

  unfoldable pub send_game_starts : Option Stage → Infos → MessageGameStarts → Result (List ℕ)
  unfolding send_object
  send_game_starts fault infos m = send_object fault (game_starts_object infos m)

  unfoldable pub send_turn : Option Stage → Infos → MessageTurn → Result (List ℕ)
  unfolding send_object
  send_turn fault infos m = send_object fault (turn_object infos m)

  unfoldable pub send_game_ends : Option Stage → MessageGameEnds → Result (List ℕ)
  unfolding send_object
  send_game_ends fault m = send_object fault (game_ends_object m)

  unfoldable pub send_do_init : Option Stage → ℤ → ℤ → ℤ → Result (List ℕ)
  unfolding send_object
  send_do_init fault nb_players nb_special_players nb_turns_max = send_object fault (
      do_init_object (record {
        nb_players = nb_players;
        nb_special_players = nb_special_players;
        nb_turns_max = nb_turns_max;
      }))

  unfoldable pub send_do_turn : Option Stage → List MessageDoTurnPlayerAction → Result (List ℕ)
  unfolding send_object
  send_do_turn fault player_actions =
      send_object fault (do_turn_object (record { player_actions = player_actions }))

  -- What `Kick` writes; its caller drops the error.
  unfoldable pub send_kick : Option Stage → String → Result (List ℕ)
  unfolding send_object
  send_kick fault reason = send_object fault (kick_object reason)
