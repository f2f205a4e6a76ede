-- ===== src/PlayerOrVisu.antt =====
-- control_pv.go: `handlePlayerOrVisu`, the behaviour loop of a player or a visualization. One
-- `step` is one round of its `select`; the event says which case was ready, and how the one write
-- to the socket ends that the case may make, and whether the one send to the game logic goes through.
pub mod Invariant
pub mod Rounds
pub mod Turns
pub mod Answers
use netorcai.Prelude.{
  ℕ, ◌<◌, ℤ, minus_one, List, [], ◌∷◌, ◌++◌, Bool, true, false, Option, none, some, if◌then◌else◌,
  length, ltb,
}
use netorcai.Result.{Result, ok, err, Error}
use netorcai.Json.{Fields}
use netorcai.Outcome.{Outcome, returns, blocks, panics}
use netorcai.Messages.{MessageTurnAck, read_turn_ack_message}
use netorcai.Outgoing.{MessageGameStarts, MessageGameEnds, MessageTurn}
use netorcai.State.{
  ClientState, unlogged, logged, ready, thinking, kicked, ClientId, PlayerOrVisuClient,
  MessageDoTurnPlayerAction, GameLogicClient, Reason, cannot_send_game_starts,
  cannot_send_game_ends, cannot_send_turn, cannot_read_turn_ack, invalid_turn_ack,
  turn_ack_not_thinking, game_is_finished,
}

-- The client and the local variables of the loop; `game_logic` is the pointer `glClient`.
pub record Handler : Type 0 where
  pub pv : PlayerOrVisuClient
  pub turn_buffer : List MessageTurn
  pub last_turn_number_sent : ℤ
  pub game_logic : Option ClientId

unfoldable pub start_handler : PlayerOrVisuClient → Handler
start_handler pv = record {
  pv = pv;
  turn_buffer = [];
  last_turn_number_sent = minus_one;
  game_logic = none;
}

-- `sent` is the outcome of the write: `none`, or its error. With `incoming_unheard` the channel to the game logic is
-- full and nobody receives from it.
pub data Event : Type 0 where
  can_terminate : Reason → Event
  game_starts : MessageGameStarts → Option Error → Event
  game_ends : MessageGameEnds → Option Error → Event
  new_turn : MessageTurn → Option Error → Event
  incoming : Result Fields → Option Error → Event
  incoming_unheard : Result Fields → Option Error → Event

-- What a round writes to the socket, or puts on the channel of the game logic.
pub data Output : Type 0 where
  sent_game_starts : MessageGameStarts → Output
  sent_game_ends : MessageGameEnds → Output
  sent_turn : MessageTurn → Output
  forwarded : MessageDoTurnPlayerAction → Output

-- The loop goes on, or ends: in `Kick`, in `KickLoggedPlayerOrVisu`, or, at the end of the game, in
-- `Kick` and `waitPlayerOrVisuFinition`.
pub data Next : Type 0 where
  loops : Handler → Next
  leaves_by_kick : Handler → Reason → Next
  leaves_by_error : Handler → Reason → Next
  waits_finition : Handler → Reason → Next

pub record Round : Type 0 where
  pub outputs : List Output
  pub next : Next

with_state : ClientState → Handler → Handler
with_state state h = record h { pv = record pv { client = record client { state = state } } }
  where
    open h use {pv, pv.{client}}

-- `glClient = globalState.GameLogic[0]`
set_game_logic : List GameLogicClient → MessageGameStarts → Handler → Outcome Round
set_game_logic [] m h = panics
set_game_logic (gl ∷ gls) m h = returns (record {
  outputs = sent_game_starts m ∷ [];
  next = loops (record h { game_logic = some gl.client });
})

on_game_starts : List GameLogicClient → MessageGameStarts → Option Error → Handler → Outcome Round
unfolding set_game_logic with_state
on_game_starts gls m (some e) h =
    returns (record { outputs = []; next = leaves_by_error h (cannot_send_game_starts e) })
on_game_starts gls m none h = set_game_logic gls m (with_state ready h)

on_game_ends : MessageGameEnds → Option Error → Handler → Round
on_game_ends m (some e) h = record {
  outputs = [];
  next = leaves_by_error h (cannot_send_game_ends e);
}
on_game_ends m none h = record {
  outputs = sent_game_ends m ∷ [];
  next = waits_finition h game_is_finished;
}

-- `lastTurnNumberSent` is set before the write.
write_turn : MessageTurn → Option Error → List Output → Handler → Round
unfolding with_state
write_turn turn (some e) outputs h = record {
  outputs = outputs;
  next =
      leaves_by_error (record h { last_turn_number_sent = turn.turn_number }) (cannot_send_turn e);
}
write_turn turn none outputs h = record {
  outputs = outputs ++ (sent_turn turn ∷ []);
  next = loops (with_state thinking (record h { last_turn_number_sent = turn.turn_number }));
}

-- The buffer keeps the latest turn only.
buffer : MessageTurn → List MessageTurn → List MessageTurn
buffer turn [] = turn ∷ []
buffer turn (t ∷ ts) = turn ∷ ts

-- The client state decides.
on_new_turn : ClientState → MessageTurn → Option Error → Handler → Round
unfolding write_turn buffer
on_new_turn ready turn sent h = write_turn turn sent [] h
on_new_turn thinking turn sent h = record {
  outputs = [];
  next = loops (record h { turn_buffer = buffer turn h.turn_buffer });
}
on_new_turn _ turn sent h = record { outputs = []; next = loops h }

-- `glClient.playerAction <- …`, by a player; a nil pointer panics, and a full channel makes it wait.
forward : Bool → Bool → Option ClientId → MessageDoTurnPlayerAction → Outcome (List Output)
forward heard false gl action = returns []
forward heard true none action = panics
forward true true (some gl) action = returns (forwarded action ∷ [])
forward false true (some gl) action = blocks

empty_buffer : Next → Next
empty_buffer (loops h) = loops (record h { turn_buffer = [] })
empty_buffer next = next

-- If a turn is buffered it is sent now, and the buffer is emptied behind a write without an error.
after_ack : List MessageTurn → Option Error → List Output → Handler → Round
unfolding write_turn with_state empty_buffer
after_ack [] sent outputs h = record { outputs = outputs; next = loops (with_state ready h) }
after_ack (turn ∷ ts) sent outputs h =
    let written = write_turn turn sent outputs h in
    record { outputs = written.outputs; next = empty_buffer written.next }

bind_round : Outcome (List Output) → (List Output → Round) → Outcome Round
bind_round (returns outputs) f = returns (f outputs)
bind_round blocks f = blocks
bind_round panics f = panics

on_valid_ack : Bool → ClientState → MessageTurnAck → Option Error → Handler → Outcome Round
unfolding forward after_ack bind_round
on_valid_ack heard thinking ack sent h =
    bind_round
      (forward heard h.pv.is_player h.game_logic (record {
        player_id = h.pv.player_id;
        turn_number = ack.turn_number;
        actions = ack.actions;
      }))
      (λ outputs. after_ack h.turn_buffer sent outputs h)
on_valid_ack heard _ ack sent h =
    returns (record { outputs = []; next = leaves_by_error h turn_ack_not_thinking })

on_ack : Bool → Result MessageTurnAck → Option Error → Handler → Outcome Round
unfolding on_valid_ack
on_ack heard (err e) sent h =
    returns (record { outputs = []; next = leaves_by_error h (invalid_turn_ack e) })
on_ack heard (ok ack) sent h = on_valid_ack heard h.pv.client.state ack sent h

on_incoming : Bool → Result Fields → Option Error → Handler → Outcome Round
unfolding on_ack
on_incoming heard (err e) sent h =
    returns (record { outputs = []; next = leaves_by_error h (cannot_read_turn_ack e) })
on_incoming heard (ok content) sent h =
    on_ack heard (read_turn_ack_message content h.last_turn_number_sent) sent h

-- `game_logics` is `globalState.GameLogic` as the round finds it.
unfoldable pub step : List GameLogicClient → Event → Handler → Outcome Round
unfolding on_game_starts on_game_ends on_new_turn on_incoming
step game_logics (can_terminate reason) h =
    returns (record { outputs = []; next = leaves_by_kick h reason })
step game_logics (game_starts m sent) h = on_game_starts game_logics m sent h
step game_logics (game_ends m sent) h = returns (on_game_ends m sent h)
step game_logics (new_turn turn sent) h = returns (on_new_turn h.pv.client.state turn sent h)
step game_logics (incoming message sent) h = on_incoming true message sent h
step game_logics (incoming_unheard message sent) h = on_incoming false message sent h

-- The rounds on a sequence of events, up to the one that ends the loop.
prefix : List Output → Outcome Round → Outcome Round
prefix outputs (returns r) = returns (record { outputs = outputs ++ r.outputs; next = r.next })
prefix outputs blocks = blocks
prefix outputs panics = panics

unfoldable pub run : List GameLogicClient → Handler → List Event → Outcome Round
unfolding prefix
run game_logics h [] = returns (record { outputs = []; next = loops h })
run game_logics h (e ∷ es) = elim (step game_logics e h) [
  | returns r ↦ elim r.next [
    | loops h' ↦ prefix r.outputs (run game_logics h' es)
    | other ↦ returns (record { outputs = r.outputs; next = other })
  ]
  | blocks ↦ blocks
  | panics ↦ panics
]
