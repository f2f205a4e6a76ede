-- ===== src/Outgoing/Reading.antt =====
-- What the other end reads of the messages of netorcai, and the answer that netorcai takes to a turn.
use netorcai.Prelude.{
  ℕ, ℤ, ◌≤ℤ◌, ◌≡◌, refl, List, [], ◌∷◌, ◌++◌, Option, none, some, true, false, ◌&&◌, All, arith,
}
use netorcai.Float64.{min_int, max_int, to_int-of_int}
use netorcai.Result.{Result, ok, err, non_object, unsupported_value, ◌>>=◌}
use netorcai.Json.{Value, object, Items, nil, cons, Fields, end, field, text, array}
use netorcai.ReadUtil.{read_string, read_int, read_object, read_array}
use netorcai.Outcome.{returns}
use netorcai.Network.{Stage, send_message}
use netorcai.GoClient.{read_message}
use netorcai.GoClient.Session.{RoundTrips, read_message-send_message}
use netorcai.Messages.{read_turn_ack_message}
use netorcai.State.{
  ClientId, ready, Infos, MessageDoTurnPlayerAction, GameLogicClient, cannot_send_game_starts,
}
use netorcai.PlayerOrVisu.{
  Handler, new_turn, incoming, sent_turn, forwarded, game_starts, loops, leaves_by_error, step, run,
}
use netorcai.Outgoing.{MessageTurn, MessageGameStarts}
use netorcai.Outgoing.Wire.{
  int, turn_object, do_turn_object, player_action_items, player_action_object, game_starts_object,
  players_info_items, fields_supported, is_finite,
}
use netorcai.Outgoing.Sending.{error_of, send_object, send_turn, send_do_turn, send_game_starts}

abbrev pub IsInt : ℤ → Type 0
IsInt n = (min_int ≤ℤ n) × (n ≤ℤ max_int)

-- What a player answers to turn `n`, by docs/metaprotocol.rst.
abbrev pub turn_ack_object : ℤ → Items → Fields
turn_ack_object n actions =
    field "message_type" (text "TURN_ACK")
      (field "turn_number" (int n) (field "actions" (array actions) end))

-- The fields of a TURN, as a client reads them.
pub record IsTurn (o : Fields) (infos : Infos) (m : MessageTurn) : Type 0 where
  pub typed : read_string o "message_type" ≡ ok "TURN"
  pub turn_read : read_int o "turn_number" ≡ ok m.turn_number
  pub state_read : read_object o "game_state" ≡ ok m.game_state
  pub players_read : read_array o "players_info" ≡ ok (players_info_items infos m.players_info)

turn_object-IsTurn :
    (infos : Infos) (m : MessageTurn) → IsInt m.turn_number → IsTurn (turn_object infos m) infos m
unfolding turn_object read_string read_int read_object read_array
turn_object-IsTurn infos m (lo, hi) = record {
  typed = refl;
  turn_read = rw (to_int-of_int m.turn_number lo hi) refl;
  state_read = refl;
  players_read = refl;
}

-- The numbers and the actions in a DO_TURN, as the game logic reads them.
as_action : Value → Result MessageDoTurnPlayerAction
as_action (object o) = do
  player_id ← read_int o "player_id"
  turn_number ← read_int o "turn_number"
  actions ← read_array o "actions"
  ok (record { player_id = player_id; turn_number = turn_number; actions = actions })
as_action _ = err (non_object "player_actions")

pub read_actions : Items → Result (List MessageDoTurnPlayerAction)
unfolding as_action
read_actions nil = ok []
read_actions (cons v vs) = do a ← as_action v; others ← read_actions vs; ok (a ∷ others)

action_read :
    (a : MessageDoTurnPlayerAction)
    → IsInt a.player_id × IsInt a.turn_number
    → as_action (object (player_action_object a)) ≡ ok a
unfolding as_action player_action_object read_int read_array
action_read a ((lo, hi), (lo', hi')) =
    rw (to_int-of_int a.player_id lo hi, to_int-of_int a.turn_number lo' hi') refl

read_actions-items :
    (actions : List MessageDoTurnPlayerAction)
    → All (λ a. IsInt a.player_id × IsInt a.turn_number) actions
    → read_actions (player_action_items actions) ≡ ok actions
unfolding read_actions player_action_items
read_actions-items [] h = refl
read_actions-items (a ∷ others) h = rw (action_read a h.0, read_actions-items others h.1) refl

-- The loop of a player writes a turn and takes the answer to it.
exchange :
    (gls : List GameLogicClient) (m : MessageTurn) (actions : Items) (h : Handler) (gl : ClientId)
    → IsInt m.turn_number
    → h.pv.client.state ≡ ready
    → h.pv.is_player ≡ true
    → h.game_logic ≡ some gl
    → h.turn_buffer ≡ []
    → run gls h (new_turn m none ∷ incoming (ok (turn_ack_object m.turn_number actions)) none ∷ [])
      ≡ returns (record {
        outputs =
            sent_turn m
            ∷ forwarded (record {
              player_id = h.pv.player_id;
              turn_number = m.turn_number;
              actions = actions;
            })
            ∷ [];
        next = loops (record h { last_turn_number_sent = m.turn_number });
      })
unfolding run step read_turn_ack_message read_string read_int read_array
exchange gls m actions h gl (lo, hi) state player some_gl empty =
    ground (arith, to_int-of_int m.turn_number lo hi)

game_starts_unsupported :
    (infos : Infos) (m : MessageGameStarts)
    → (is_finite m.delay_first_turn && is_finite m.delay_turns) ≡ false
    → fields_supported (game_starts_object infos m) ≡ false
unfolding fields_supported game_starts_object
game_starts_unsupported infos m h = ground arith

module _ (marshal : Fields → List ℕ) where
  send_object-ok :
      (fault : Option Stage) (o : Fields) (bytes : List ℕ)
      → send_object marshal fault o ≡ ok bytes
      → send_message fault (marshal o) ≡ ok bytes
  unfolding send_object
  send_object-ok fault o bytes h = ground arith

  -- If a delay between the turns is infinite or NaN, JSON has no text for it: GAME_STARTS is not
  -- written, and the loop of every client that gets the message ends with the KICK of that error.
  pub step-game_starts_unsupported :
      (fault : Option Stage) (infos : Infos) (m : MessageGameStarts) (gls : List GameLogicClient)
      (h : Handler)
      → (is_finite m.delay_first_turn && is_finite m.delay_turns) ≡ false
      → step gls (game_starts m (error_of (send_game_starts marshal fault infos m))) h
        ≡ returns (record {
          outputs = [];
          next = leaves_by_error h (cannot_send_game_starts unsupported_value);
        })
  unfolding step send_game_starts send_object
  step-game_starts_unsupported fault infos m gls h odd =
      rw (game_starts_unsupported infos m odd) refl

module _ (marshal : Fields → List ℕ) (unmarshal : List ℕ → Option Fields) where
  -- If JSON round trips at the message: what a sent DO_TURN tells the game logic, which reads it with
  -- the Go client, is the list of actions, each with its player, its turn and its content, in order.
  pub read_actions-send_do_turn :
      (fault : Option Stage) (actions : List MessageDoTurnPlayerAction) (bytes rest : List ℕ)
      → RoundTrips marshal unmarshal (do_turn_object (record { player_actions = actions }))
      → All (λ a. IsInt a.player_id × IsInt a.turn_number) actions
      → send_do_turn marshal fault actions ≡ ok bytes
      → (o : Fields) × (items : Items) × (read_message unmarshal (bytes ++ rest) ≡ ok (o, rest))
        × (read_string o "message_type" ≡ ok "DO_TURN")
        × (read_array o "player_actions" ≡ ok items)
        × (read_actions items ≡ ok actions)
  unfolding send_do_turn do_turn_object read_string read_array
  read_actions-send_do_turn fault actions bytes rest back ints h =
      let o : Fields = do_turn_object (record { player_actions = actions }) in
      (
        o,
        player_action_items actions,
        read_message-send_message marshal unmarshal fault o rest bytes back
            (send_object-ok marshal fault o bytes h),
        refl,
        refl,
        read_actions-items actions ints,
      )

  -- If JSON round trips at the message and the turn number fits an `int`: the TURN that a ready player
  -- with an empty buffer is sent arrives at a client of the Go library with its number, its game state
  -- and the information on the players as it is then, and a TURN_ACK with the number that was read makes
  -- the player's loop hand the actions to the game logic under its identifier and that number, once.
  pub run-send_turn :
      (fault : Option Stage) (infos : Infos) (m : MessageTurn) (bytes rest : List ℕ)
      (gls : List GameLogicClient) (actions : Items) (h : Handler) (gl : ClientId)
      → RoundTrips marshal unmarshal (turn_object infos m)
      → IsInt m.turn_number
      → send_turn marshal fault infos m ≡ ok bytes
      → h.pv.client.state ≡ ready
      → h.pv.is_player ≡ true
      → h.game_logic ≡ some gl
      → h.turn_buffer ≡ []
      → (o : Fields) × (n : ℤ) × (read_message unmarshal (bytes ++ rest) ≡ ok (o, rest))
        × (read_int o "turn_number" ≡ ok n)
        × IsTurn o infos m
        × (run gls h (
              new_turn m (error_of (send_turn marshal fault infos m))
              ∷ incoming (ok (turn_ack_object n actions)) none
              ∷ [])
            ≡ returns (record {
              outputs =
                  sent_turn m
                  ∷ forwarded (record {
                    player_id = h.pv.player_id;
                    turn_number = m.turn_number;
                    actions = actions;
                  })
                  ∷ [];
              next = loops (record h { last_turn_number_sent = m.turn_number });
            }))
  unfolding send_turn
  run-send_turn fault infos m bytes rest gls actions h gl back fits sent state player some_gl
        empty =
      let is_turn = turn_object-IsTurn infos m fits in
      (
        turn_object infos m,
        m.turn_number,
        read_message-send_message marshal unmarshal fault (turn_object infos m) rest bytes back
            (send_object-ok marshal fault (turn_object infos m) bytes sent),
        is_turn.turn_read,
        is_turn,
        rw sent (exchange gls m actions h gl fits state player some_gl empty),
      )
