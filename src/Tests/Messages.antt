-- ===== src/Tests/Messages.antt =====
-- The reading, framing and sending of messages.
use netorcai.Prelude.{
  ℕ, pos, ◌≡◌, refl, ◌↔◌, inl, List, [], ◌∷◌, Option, none, some, arith, codes, length, ◌≤◌,
}
use netorcai.Result.{Result, ok, err, read_failed}
use netorcai.Json.{Fields, end, nil}
use netorcai.Version.{atoi, decimal}
use netorcai.Network.{put_uint32, read_client_messages}
use netorcai.Network.Delivery.{
  handed, received, sent, Ends, read_client_messages-sent, read_client_messages_total,
}
use netorcai.Messages.{
  MessageLogin, MessageDoTurnAck, read_login_message, read_turn_ack_message,
  read_do_turn_ack_message,
}
use netorcai.Messages.Login.{IsLogin, IsNickname, Speaks, read_login_message-ok_iff}
use netorcai.Messages.Acks.{
  IsTurnAck, IsDoTurnAck, read_turn_ack_message-ok_iff, read_do_turn_ack_message-ok_iff,
}
use netorcai.GoClient.{send_login, login_fields}
use netorcai.GoClient.Session.{read_login_message-send_login}
use netorcai.Tests.{login, turn_ack, do_turn_ack}

abbrev bot_login : MessageLogin
bot_login = record { nickname = "bot"; role = "player"; metaprotocol_version = "2.0.1" }

read_login_message-ok_iff_example :
    (read_login_message login ≡ ok bot_login) ↔ IsLogin login bot_login
read_login_message-ok_iff_example = read_login_message-ok_iff login bot_login

read_turn_ack_message-ok_iff_example :
    (read_turn_ack_message turn_ack (pos 0) ≡ ok (record { turn_number = pos 0; actions = nil }))
    ↔ IsTurnAck turn_ack (pos 0) (record { turn_number = pos 0; actions = nil })
read_turn_ack_message-ok_iff_example =
    read_turn_ack_message-ok_iff turn_ack (pos 0) (record { turn_number = pos 0; actions = nil })

abbrev winner_one : MessageDoTurnAck
winner_one = record { winner_player_id = pos 1; game_state = end }

read_do_turn_ack_message-ok_iff_example :
    (read_do_turn_ack_message do_turn_ack (pos 2) ≡ ok winner_one)
    ↔ IsDoTurnAck do_turn_ack (pos 2) winner_one
read_do_turn_ack_message-ok_iff_example =
    read_do_turn_ack_message-ok_iff do_turn_ack (pos 2) winner_one

-- A reader that knows one message.
abbrev unmarshal : List ℕ → Option Fields
unmarshal cs = some end

read_client_messages-sent_example :
    read_client_messages unmarshal 2 (sent ((b'{' ∷ b'}' ∷ [], end) ∷ []))
    ≡ handed 2 (received ((b'{' ∷ b'}' ∷ [], end) ∷ []))
read_client_messages-sent_example =
    read_client_messages-sent unmarshal 2 (b'{' ∷ b'}' ∷ []) end [] (omega arith, refl) tt

read_client_messages_total_example :
    (ms : List (Result Fields)) × ((receives : ℕ)
      → read_client_messages unmarshal receives (2 ∷ 0 ∷ 0 ∷ []) ≡ handed receives ms)
    × Ends ms
    × (length ms ≤ 4)
read_client_messages_total_example = read_client_messages_total unmarshal (2 ∷ 0 ∷ 0 ∷ [])

abbrev marshal : Fields → List ℕ
marshal o = b'{' ∷ b'}' ∷ []

unmarshal_login : List ℕ → Option Fields
unmarshal_login cs = some (login_fields "player" "bot" "2.0.1")

named_bot : IsNickname (codes "bot")
named_bot = record {
  present = omega arith;
  short = omega arith;
  solid = (refl, (refl, (refl, tt)));
}

Speaks-two : Speaks "2.0.1"
unfolding atoi decimal
Speaks-two = (
  codes "2",
  codes "0",
  codes "1",
  record {
    major_digits = ((refl, tt), omega arith);
    minor_digits = ((refl, tt), omega arith);
    patch_digits = ((refl, tt), omega arith);
    parts = refl;
  },
  refl,
)

read_login_message-send_login_example :
    (message : Fields) × (read_client_messages unmarshal_login 1
        (3 ∷ 0 ∷ 0 ∷ 0 ∷ b'{' ∷ b'}' ∷ b'\n' ∷ [])
      ≡ handed 1 (ok message ∷ err read_failed ∷ []))
    × (read_login_message message ≡ ok bot_login)
unfolding send_login put_uint32 unmarshal_login
read_login_message-send_login_example =
    read_login_message-send_login marshal unmarshal_login 1 none "player" "bot" "2.0.1"
      (3 ∷ 0 ∷ 0 ∷ 0 ∷ b'{' ∷ b'}' ∷ b'\n' ∷ []) refl named_bot (inl refl) Speaks-two (omega arith)
      refl
