-- ===== src/Messages.antt =====
-- messages.go: the messages that netorcai reads, with the checks on each.
mod Types
pub mod Login
pub mod Acks
use netorcai.Prelude.{
  ℕ, ◌≤◌, ℤ, pos, minus_one, String, str_eq, codes, List, [], ◌∷◌, Bool, true, false, not, ◌&&◌,
  ◌||◌, Option, none, some, leb, ◌==◌, if◌then◌else◌, length, ltb_ℤ, leb_ℤ, eqb_ℤ,
}
use netorcai.Result.{
  Result, ok, err, guard, ◌>>=◌, ◌>>◌, unexpected_type, invalid_nickname, version_not_dotted,
  invalid_role, version_mismatch, wrong_turn_number, winner_not_in,
}
use netorcai.Json.{Items, Fields}
use netorcai.ReadUtil.{read_string, read_int, read_object, read_array}
use netorcai.Version.{version_major, match_version, atoi}

pub record MessageLogin : Type 0 where
  pub nickname : String
  pub role : String
  pub metaprotocol_version : String

pub record MessageTurnAck : Type 0 where
  pub turn_number : ℤ
  pub actions : Items

pub record MessageDoInitAck : Type 0 where
  pub initial_game_state : Fields

pub record MessageDoTurnAck : Type 0 where
  pub winner_player_id : ℤ
  pub game_state : Fields

check_type : String → String → Result (Unit {0})
check_type expected received =
    if str_eq received expected then ok tt else err (unexpected_type received expected)

unfoldable pub check_message_type : Fields → String → Result (Unit {0})
unfolding check_type
check_message_type message expected = read_string message "message_type" >>= check_type expected

-- `\s` in a Go regular expression.
abbrev pub is_space : ℕ → Bool
is_space c = c == 9 || (c == 10 || (c == 12 || (c == 13 || c == 32)))

unfoldable pub no_space : List ℕ → Bool
no_space [] = true
no_space (c ∷ cs) = not (is_space c) && no_space cs

-- `\A\S{1,10}\z`
unfoldable pub is_nickname : List ℕ → Bool
is_nickname cs = leb 1 (length cs) && (leb (length cs) 10 && no_space cs)

unfoldable pub is_role : String → Bool
is_role role =
    str_eq role "player"
    || (str_eq role "special player" || (str_eq role "visualization" || str_eq role "game logic"))

check_major : String → Option (List ℕ × List ℕ × List ℕ) → Result (Unit {0})
check_major text none = err version_not_dotted
check_major text (some (major, minor, patch)) =
    if eqb_ℤ (atoi major) version_major then ok tt else err (version_mismatch text)

unfoldable pub check_version : String → Result (Unit {0})
unfolding check_major
check_version text = check_major text (match_version (codes text))

unfoldable pub read_login_message : Fields → Result MessageLogin
unfolding check_message_type
read_login_message message = do
  check_message_type message "LOGIN"
  nickname ← read_string message "nickname"
  guard (is_nickname (codes nickname)) invalid_nickname
  role ← read_string message "role"
  guard (is_role role) (invalid_role role)
  version ← read_string message "metaprotocol_version"
  check_version version
  ok (record { nickname = nickname; role = role; metaprotocol_version = version })

unfoldable pub read_turn_ack_message : Fields → ℤ → Result MessageTurnAck
unfolding check_message_type
read_turn_ack_message message expected = do
  check_message_type message "TURN_ACK"
  n ← read_int message "turn_number"
  guard (eqb_ℤ n expected) (wrong_turn_number n expected)
  actions ← read_array message "actions"
  ok (record { turn_number = n; actions = actions })

unfoldable pub read_do_init_ack_message : Fields → Result MessageDoInitAck
unfolding check_message_type
read_do_init_ack_message message = do
  check_message_type message "DO_INIT_ACK"
  game_state ← read_object message "initial_game_state"
  all_clients ← read_object game_state "all_clients"
  ok (record { initial_game_state = all_clients })

-- `nb_players` is the number of players that the game began with.
unfoldable pub read_do_turn_ack_message : Fields → ℤ → Result MessageDoTurnAck
unfolding check_message_type
read_do_turn_ack_message message nb_players = do
  check_message_type message "DO_TURN_ACK"
  winner ← read_int message "winner_player_id"
  guard (not (ltb_ℤ winner minus_one || leb_ℤ nb_players winner)) (winner_not_in nb_players)
  game_state ← read_object message "game_state"
  all_clients ← read_object game_state "all_clients"
  ok (record { winner_player_id = winner; game_state = all_clients })
