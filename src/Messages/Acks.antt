-- ===== src/Messages/Acks.antt =====
-- The acknowledgements that are accepted: TURN_ACK, DO_INIT_ACK and DO_TURN_ACK.
use netorcai.Prelude.{ℤ, minus_one, ◌≤ℤ◌, ◌<ℤ◌, String, ◌≡◌, ◌↔◌, arith}
use netorcai.Result.{ok, ◌>>=◌, >>=-eq-ok}
use netorcai.Json.{Fields}
use netorcai.ReadUtil.{read_string, read_object, read_array}
use netorcai.Messages.Types.{check_message_type-ok, ReadsInt, read_int-ReadsInt}
use netorcai.Messages.{
  MessageTurnAck, MessageDoInitAck, MessageDoTurnAck, check_message_type, read_turn_ack_message,
  read_do_init_ack_message, read_do_turn_ack_message,
}

pub record IsTurnAck (message : Fields) (expected : ℤ) (m : MessageTurnAck) : Type 0 where
  pub typed : read_string message "message_type" ≡ ok "TURN_ACK"
  pub turn_read : ReadsInt message "turn_number" m.turn_number
  pub turn_expected : m.turn_number ≡ expected
  pub actions_read : read_array message "actions" ≡ ok m.actions

read-IsTurnAck_sound :
    (message : Fields) (n : ℤ) (m : MessageTurnAck)
    → read_turn_ack_message message n ≡ ok m
    → IsTurnAck message n m
unfolding read_turn_ack_message
read-IsTurnAck_sound message n m h = record {
  typed = check_message_type-ok message "TURN_ACK" (unfold check_message_type in ground arith);
  turn_read = (read_int-ReadsInt message "turn_number" m.turn_number).0 (ground arith);
  turn_expected = ground arith;
  actions_read = ground arith;
}

-- TURN_ACK is accepted exactly if its type is "TURN_ACK", its turn number is a JSON number that
-- truncates toward zero to the expected one, so that 0.9 stands for turn 0, and its actions are any
-- array, also if a visualization sends it.
pub read_turn_ack_message-ok_iff :
    (message : Fields) (n : ℤ) (m : MessageTurnAck)
    → (read_turn_ack_message message n ≡ ok m) ↔ IsTurnAck message n m
unfolding read_turn_ack_message
read_turn_ack_message-ok_iff message n m = (
  read-IsTurnAck_sound message n m,
  λ v.
      rw (v.typed, (read_int-ReadsInt message "turn_number" m.turn_number).1 v.turn_read)
        (ground (arith, v.turn_expected, v.actions_read)),
)

-- The object `all_clients` inside the object `field`.
abbrev pub ReadsState : Fields → String → Fields → Type 0
ReadsState message field state =
    (outer : Fields) × (read_object message field ≡ ok outer)
    × (read_object outer "all_clients" ≡ ok state)

nested_read :
    (message : Fields) (field : String) {state : Fields}
    → (read_object message field >>= λ o. read_object o "all_clients") ≡ ok state
    → ReadsState message field state
nested_read message field h = >>=-eq-ok (read_object message field) _ h

pub record IsDoTurnAck (message : Fields) (nb_players : ℤ) (m : MessageDoTurnAck) : Type 0 where
  pub typed : read_string message "message_type" ≡ ok "DO_TURN_ACK"
  pub winner_read : ReadsInt message "winner_player_id" m.winner_player_id
  pub winner_least : minus_one ≤ℤ m.winner_player_id
  pub winner_below : m.winner_player_id <ℤ nb_players
  pub state_read : ReadsState message "game_state" m.game_state

read-IsDoTurnAck_sound :
    (message : Fields) (n : ℤ) (m : MessageDoTurnAck)
    → read_do_turn_ack_message message n ≡ ok m
    → IsDoTurnAck message n m
unfolding read_do_turn_ack_message
read-IsDoTurnAck_sound message n m h = record {
  typed = check_message_type-ok message "DO_TURN_ACK" (unfold check_message_type in ground arith);
  winner_read = (read_int-ReadsInt message "winner_player_id" m.winner_player_id).0 (ground arith);
  winner_least = ground arith;
  winner_below = ground arith;
  state_read = nested_read message "game_state" (ground arith);
}

read_do_turn_ack_complete :
    (message : Fields) (n : ℤ) (m : MessageDoTurnAck)
    → IsDoTurnAck message n m
    → read_do_turn_ack_message message n ≡ ok m
unfolding read_do_turn_ack_message
read_do_turn_ack_complete message n m v =
    let (outer, o, i) = v.state_read in
    rw (v.typed, (read_int-ReadsInt message "winner_player_id" m.winner_player_id).1 v.winner_read)
      (ground (arith, o, i, v.winner_least, v.winner_below))

-- DO_TURN_ACK is accepted exactly if its type is "DO_TURN_ACK", its winner is a JSON number that
-- truncates toward zero to -1 or to one of the numbers below the number of players, so that 0.5
-- stands for 0 and -1.9 for -1, and its game state holds an object `all_clients`.
pub read_do_turn_ack_message-ok_iff :
    (message : Fields) (n : ℤ) (m : MessageDoTurnAck)
    → (read_do_turn_ack_message message n ≡ ok m) ↔ IsDoTurnAck message n m
read_do_turn_ack_message-ok_iff message n m =
    (read-IsDoTurnAck_sound message n m, read_do_turn_ack_complete message n m)

pub record IsDoInitAck (message : Fields) (m : MessageDoInitAck) : Type 0 where
  pub typed : read_string message "message_type" ≡ ok "DO_INIT_ACK"
  pub state_read : ReadsState message "initial_game_state" m.initial_game_state

-- DO_INIT_ACK is accepted exactly if its type is "DO_INIT_ACK" and its initial game state holds an
-- object `all_clients`.
pub read_do_init_ack_message-ok_iff :
    (message : Fields) (m : MessageDoInitAck)
    → (read_do_init_ack_message message ≡ ok m) ↔ IsDoInitAck message m
unfolding read_do_init_ack_message
read_do_init_ack_message-ok_iff message m = (
  λ h. record {
    typed = check_message_type-ok message "DO_INIT_ACK" (unfold check_message_type in ground arith);
    state_read = nested_read message "initial_game_state" (ground arith);
  },
  λ v. let (outer, o, i) = v.state_read in rw (v.typed) (ground (arith, o, i)),
)
