-- ===== src/PlayerOrVisu/Invariant.antt =====
-- What holds of a behaviour loop between two rounds, and how a round ends.
use netorcai.Prelude.{
  ℕ, ◌≤◌, ◌<◌, ◌≡◌, ◌≢◌, List, [], ◌∷◌, Bool, true, false, ◌||◌, Option, none, some, length, arith,
  ◌⊎◌,
}
use netorcai.Result.{Result, ok}
use netorcai.Outcome.{Outcome, returns, blocks}
use netorcai.State.{
  ClientState, ready, thinking, logged, kicked, PlayerOrVisuClient, GameLogicClient,
}
use netorcai.Messages.{MessageTurnAck, read_turn_ack_message}
use netorcai.PlayerOrVisu.{
  Handler, Event, can_terminate, game_starts, game_ends, new_turn, incoming, incoming_unheard,
  loops, Round, start_handler, step,
}

abbrev pub is_linked : Option ℕ → Bool
is_linked none = false
is_linked (some gl) = true

abbrev pub is_start : Event → Bool
is_start (game_starts m sent) = true
is_start _ = false

-- The game logic sends GAME_STARTS once.
abbrev pub StartsOnce : Bool → List Event → Type 0
StartsOnce started [] = Unit {0}
StartsOnce started (e ∷ es) =
    (is_start e ≡ true → started ≡ false) × StartsOnce (started || is_start e) es

-- One turn is buffered at most, only while the client thinks; the client is logged until the game
-- starts, and from then on the pointer to the game logic is set.
pub record Inv (started : Bool) (h : Handler) : Type 0 where
  pub one_turn : length h.turn_buffer ≤ 1
  pub buffered_thinks : 0 < length h.turn_buffer → h.pv.client.state ≡ thinking
  pub waits_logged : started ≡ false → h.pv.client.state ≡ logged
  pub ready_linked : h.pv.client.state ≡ ready → is_linked h.game_logic ≡ true
  pub thinking_linked : h.pv.client.state ≡ thinking → is_linked h.game_logic ≡ true
  pub not_kicked : h.pv.client.state ≢ kicked

pub start_handler-Inv :
    (pv : PlayerOrVisuClient) → pv.client.state ≡ logged → Inv false (start_handler pv)
unfolding start_handler
start_handler-Inv pv h = ground arith

pub step-Inv :
    (started : Bool) (gls : List GameLogicClient) (e : Event) (h h' : Handler) (r : Round)
    → (is_start e ≡ true → started ≡ false)
    → Inv started h
    → step gls e h ≡ returns r
    → r.next ≡ loops h'
    → Inv (started || is_start e) h'
unfolding step
step-Inv started gls (can_terminate reason) h h' r once v did next = ground arith
step-Inv started gls (game_starts m sent) h h' r once v did next = ground arith
step-Inv started gls (game_ends m sent) h h' r once v did next = ground arith
step-Inv started gls (new_turn turn sent) h h' r once v did next = ground arith
step-Inv started gls (incoming message sent) h h' r once v did next = ground arith
step-Inv started gls (incoming_unheard message sent) h h' r once v did next = ground arith

-- The round sends an action to the game logic: a thinking player has answered.
abbrev Forwards : ClientState → Result MessageTurnAck → Handler → Type 0
Forwards state ack h =
    (state ≡ thinking) × (h.pv.is_player ≡ true) × ((m : MessageTurnAck) × (ack ≡ ok m))

-- A round that returns, or that waits in sending an action which nobody takes.
abbrev Ends : Bool → ClientState → Result MessageTurnAck → Handler → Outcome Round → Type 0
Ends heard state ack h o =
    ((r : Round) × (o ≡ returns r)) ⊎ ((o ≡ blocks) × (heard ≡ false) × Forwards state ack h)

-- A thinking player has sent a valid TURN_ACK, and nobody takes its action from the full channel of the game logic.
abbrev pub WaitsForGameLogic : Event → Handler → Type 0
WaitsForGameLogic (incoming_unheard (ok content) sent) h =
    Forwards h.pv.client.state (read_turn_ack_message content h.last_turn_number_sent) h
WaitsForGameLogic _ h = ⊥
