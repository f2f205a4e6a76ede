-- ===== src/Outgoing/Wire.antt =====
-- The JSON objects of the messages that netorcai sends: messages.go with its `json` tags, and the constants
-- `MessageType` from control.go and control_gl.go. An object is written out field by field in the order of the
-- struct; the pointers of `players_info` are read when the message is written.
use netorcai.Prelude.{ℤ, String, List, [], ◌∷◌, Bool, true, false, ◌&&◌}
use netorcai.Float64.{Float64, of_int, finite, infinite, nan}
use netorcai.Json.{
  Value, null, bool, number, text, array, object, Items, nil, cons, Fields, end, field,
}
use netorcai.State.{ClientId, PlayerInformation, Infos, MessageDoTurnPlayerAction}
use netorcai.Outgoing.{
  MessageLoginAck, MessageGameStarts, MessageGameEnds, MessageTurn, MessageDoInit, MessageDoTurn,
}

abbrev pub int : ℤ → Value
int n = number (of_int n)

player_information_object : PlayerInformation → Fields
player_information_object p = field "player_id" (int p.player_id) (
    field "nickname" (text p.nickname) (
      field "remote_address" (text p.remote_address)
        (field "is_connected" (bool p.is_connected) end)))

unfoldable pub players_info_items : Infos → List ClientId → Items
unfolding player_information_object
players_info_items infos [] = nil
players_info_items infos (c ∷ cs) =
    cons (object (player_information_object (infos c))) (players_info_items infos cs)

unfoldable pub login_ack_object : MessageLoginAck → Fields
login_ack_object m =
    field "message_type" (text "LOGIN_ACK")
      (field "metaprotocol_version" (text m.metaprotocol_version) end)

unfoldable pub game_starts_object : Infos → MessageGameStarts → Fields
game_starts_object infos m = field "message_type" (text "GAME_STARTS") (
    field "player_id" (int m.player_id) (
      field "nb_players" (int m.nb_players) (
        field "nb_special_players" (int m.nb_special_players) (
          field "nb_turns_max" (int m.nb_turns_max) (
            field "milliseconds_before_first_turn" (number m.delay_first_turn) (
              field "milliseconds_between_turns" (number m.delay_turns) (
                field "initial_game_state" (object m.initial_game_state) (
                  field "players_info" (array (players_info_items infos m.players_info)) end))))))))

unfoldable pub game_ends_object : MessageGameEnds → Fields
game_ends_object m = field "message_type" (text "GAME_ENDS") (
    field "winner_player_id" (int m.winner_player_id)
      (field "game_state" (object m.game_state) end))

unfoldable pub turn_object : Infos → MessageTurn → Fields
turn_object infos m = field "message_type" (text "TURN") (
    field "turn_number" (int m.turn_number) (
      field "game_state" (object m.game_state)
        (field "players_info" (array (players_info_items infos m.players_info)) end)))

unfoldable pub do_init_object : MessageDoInit → Fields
do_init_object m = field "message_type" (text "DO_INIT") (
    field "nb_players" (int m.nb_players) (
      field "nb_special_players" (int m.nb_special_players)
        (field "nb_turns_max" (int m.nb_turns_max) end)))

unfoldable pub player_action_object : MessageDoTurnPlayerAction → Fields
player_action_object a =
    field "player_id" (int a.player_id)
      (field "turn_number" (int a.turn_number) (field "actions" (array a.actions) end))

unfoldable pub player_action_items : List MessageDoTurnPlayerAction → Items
unfolding player_action_object
player_action_items [] = nil
player_action_items (a ∷ actions) =
    cons (object (player_action_object a)) (player_action_items actions)

unfoldable pub do_turn_object : MessageDoTurn → Fields
unfolding player_action_items
do_turn_object m =
    field "message_type" (text "DO_TURN")
      (field "player_actions" (array (player_action_items m.player_actions)) end)

-- `reason` is the text.
unfoldable pub kick_object : String → Fields
kick_object reason = field "message_type" (text "KICK") (field "kick_reason" (text reason) end)

-- The floats that JSON has: neither infinite nor NaN.
abbrev pub is_finite : Float64 → Bool
is_finite (finite s m e) = true
is_finite (infinite s) = false
is_finite nan = false

-- What `json.Marshal` has no text for is an error of the whole message.
unfoldable mutual
  pub value_supported : Value → Bool
  value_supported null = true
  value_supported (bool b) = true
  value_supported (number f) = is_finite f
  value_supported (text s) = true
  value_supported (array xs) = items_supported xs
  value_supported (object o) = fields_supported o

  pub items_supported : Items → Bool
  items_supported nil = true
  items_supported (cons v vs) = value_supported v && items_supported vs

  pub fields_supported : Fields → Bool
  fields_supported end = true
  fields_supported (field k v fs) = value_supported v && fields_supported fs
