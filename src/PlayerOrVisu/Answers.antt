-- ===== src/PlayerOrVisu/Answers.antt =====
-- What a player's loop hands to the game logic.
use netorcai.Prelude.{
  ℤ, ◌≡◌, subst, sym, ◌∙◌, inl, inr, List, [], ◌∷◌, ◌++◌, Bool, true, false, ◌||◌, Option, none,
  some, arith,
}
use netorcai.Result.{ok, err, Result-cases}
use netorcai.Outcome.{returns}
use netorcai.Json.{Fields}
use netorcai.Messages.{MessageTurnAck, read_turn_ack_message}
use netorcai.Messages.Acks.{read_turn_ack_message-ok_iff}
use netorcai.State.{ClientState, thinking, logged, PlayerOrVisuClient, GameLogicClient}
use netorcai.PlayerOrVisu.{
  Handler, Event, can_terminate, game_starts, game_ends, new_turn, incoming, incoming_unheard,
  loops, Round, Output, sent_game_starts, sent_game_ends, sent_turn, forwarded, start_handler, step,
  run,
}
use netorcai.PlayerOrVisu.Invariant.{is_start, StartsOnce, Inv, start_handler-Inv, step-Inv}
use netorcai.PlayerOrVisu.Rounds.{is_loop, run_first, run_nil}

-- Turns and actions alternate, and an action answers the turn before it; `open_turn` is the number
-- of the turn that is not answered yet.
abbrev pub Alternates : Option ℤ → List Output → Type 0
Alternates open_turn [] = Unit {0}
Alternates open_turn (sent_game_starts m ∷ os) = Alternates open_turn os
Alternates open_turn (sent_game_ends m ∷ os) = Alternates open_turn os
Alternates none (sent_turn turn ∷ os) = Alternates (some turn.turn_number) os
Alternates (some n) (sent_turn turn ∷ os) = ⊥
Alternates none (forwarded action ∷ os) = ⊥
Alternates (some n) (forwarded action ∷ os) = (action.turn_number ≡ n) × Alternates none os

abbrev pending_of : ClientState → ℤ → Option ℤ
pending_of thinking n = some n
pending_of _ n = none

abbrev pending : Handler → Option ℤ
pending h = pending_of h.pv.client.state h.last_turn_number_sent

turn_expected :
    (content : Fields) (n : ℤ) (ack : MessageTurnAck)
    → read_turn_ack_message content n ≡ ok ack
    → ack.turn_number ≡ n
turn_expected content n ack e = ((read_turn_ack_message-ok_iff content n ack).0 e).turn_expected

step_keeps_role :
    (gls : List GameLogicClient) (e : Event) (h h' : Handler) (r : Round)
    → step gls e h ≡ returns r
    → r.next ≡ loops h'
    → h'.pv.is_player ≡ h.pv.is_player
unfolding step
step_keeps_role gls e h h' r did next = ground arith

-- A round that ends the loop.
step_last-Alternates :
    (gls : List GameLogicClient) (e : Event) (h : Handler) (r : Round)
    → h.pv.is_player ≡ true
    → step gls e h ≡ returns r
    → is_loop r.next ≡ false
    → Alternates (pending h) r.outputs
unfolding step
step_last-Alternates gls (can_terminate reason) h r player did last = ground arith
step_last-Alternates gls (game_starts m sent) h r player did last = ground arith
step_last-Alternates gls (game_ends m sent) h r player did last = ground arith
step_last-Alternates gls (new_turn turn sent) h r player did last = ground arith
step_last-Alternates gls (incoming (err e) sent) h r player did last = ground arith
step_last-Alternates gls (incoming (ok content) sent) h r player did last =
    elim (Result-cases (read_turn_ack_message content h.last_turn_number_sent)) [
      | inl (ack, e) ↦ ground (arith, turn_expected content h.last_turn_number_sent ack e)
      | inr (x, e) ↦ ground arith
    ]
step_last-Alternates gls (incoming_unheard (err e) sent) h r player did last = ground arith
step_last-Alternates gls (incoming_unheard (ok content) sent) h r player did last =
    elim (Result-cases (read_turn_ack_message content h.last_turn_number_sent)) [
      | inl (ack, e) ↦ ground (arith, turn_expected content h.last_turn_number_sent ack e)
      | inr (x, e) ↦ ground arith
    ]

step-Alternates :
    (started : Bool) (gls : List GameLogicClient) (e : Event) (h h' : Handler) (r : Round)
    (os : List Output)
    → Inv started h
    → (is_start e ≡ true → started ≡ false)
    → h.pv.is_player ≡ true
    → step gls e h ≡ returns r
    → r.next ≡ loops h'
    → Alternates (pending h') os
    → Alternates (pending h) (r.outputs ++ os)
unfolding step
step-Alternates started gls (can_terminate reason) h h' r os v once player did next a = ground arith
step-Alternates started gls (game_starts m sent) h h' r os v once player did next a = ground arith
step-Alternates started gls (game_ends m sent) h h' r os v once player did next a = ground arith
step-Alternates started gls (new_turn turn sent) h h' r os v once player did next a = ground arith
step-Alternates started gls (incoming (err e) sent) h h' r os v once player did next a =
    ground arith
step-Alternates started gls (incoming (ok content) sent) h h' r os v once player did next a =
    elim (Result-cases (read_turn_ack_message content h.last_turn_number_sent)) [
      | inl (ack, e) ↦ ground (arith, turn_expected content h.last_turn_number_sent ack e)
      | inr (x, e) ↦ ground arith
    ]
step-Alternates started gls (incoming_unheard (err e) sent) h h' r os v once player did next a =
    ground arith
step-Alternates started gls (incoming_unheard (ok content) sent) h h' r os v once player did next
      a =
    elim (Result-cases (read_turn_ack_message content h.last_turn_number_sent)) [
      | inl (ack, e) ↦ ground (arith, turn_expected content h.last_turn_number_sent ack e)
      | inr (x, e) ↦ ground arith
    ]

run-Alternates_from :
    (started : Bool) (gls : List GameLogicClient) (es : List Event) (h : Handler) (r : Round)
    → Inv started h
    → StartsOnce started es
    → h.pv.is_player ≡ true
    → run gls h es ≡ returns r
    → Alternates (pending h) r.outputs
run-Alternates_from started gls [] h r v once player did = rw (run_nil gls h r did) tt
run-Alternates_from started gls (e ∷ es) h r v once player did =
    let (r₁, first, rest) = run_first gls h e es r did in
    elim rest [
      | inl (last, os) ↦
          subst (Alternates (pending h)) (sym os)
            (step_last-Alternates gls e h r₁ player first last)
      | inr (h', r₂, n, did₂, os) ↦ subst (Alternates (pending h)) (sym os) (
          step-Alternates started gls e h h' r₁ r₂.outputs v once.0 player first n (
            run-Alternates_from (started || is_start e) gls es h' r₂
              (step-Inv started gls e h h' r₁ once.0 v first n) once.1
              (step_keeps_role gls e h h' r₁ first n ∙ player) did₂))
    ]

-- A player is sent a turn only when it has answered the one before, and an action goes to the game
-- logic only as the answer to the turn that was sent last, once, and under that turn's number; if
-- GAME_STARTS comes once.
pub run-Alternates :
    (gls : List GameLogicClient) (pv : PlayerOrVisuClient) (es : List Event) (r : Round)
    → pv.client.state ≡ logged
    → pv.is_player ≡ true
    → StartsOnce false es
    → run gls (start_handler pv) es ≡ returns r
    → Alternates none r.outputs
unfolding start_handler
run-Alternates gls pv es r fresh player once did = rw fresh at (
    run-Alternates_from false gls es (start_handler pv) r (start_handler-Inv pv fresh) once player
      did)
