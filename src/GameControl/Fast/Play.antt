-- ===== src/GameControl/Fast/Play.antt =====
-- A whole game in fast mode.
use netorcai.Prelude.{
  ltb_ℤ, ℕ, suc, ℤ, pos, ◌≡◌, refl, ◌≢◌, if◌then◌else◌, subst, ◌⊎◌, List, [], ◌∷◌, ◌++◌, map, arith,
  true, false, Bool-cases, inl, inr,
}
use netorcai.Outcome.{Outcome, blocks, returns, returns_inj, >>=-eq-returns}
use netorcai.Messages.{MessageDoTurnAck}
use netorcai.State.{ClientId, Reason}
use netorcai.GameControl.{
  clients, Game, Output, do_turn, end_game, handle_gl_do_turn_ack_reception,
  handle_gl_forward_turn_to_clients,
}
use netorcai.GameControl.Loop.{Round, run-Good, Follows}
use netorcai.GameControl.Turns.{Counted, forward-Counted, end_game_shape}
use netorcai.GameControl.Fast.{
  Phase, waiting_ack, collecting, Fast, Event, can_terminate, player_action, player_disconnected,
  incoming, put, delete, is_connected, are_all_values_true, collect, finish, turn, on_message,
  on_action, on_disconnection, while_waiting, while_collecting, step, run,
}

-- The outputs that keep to the number of turns.
abbrev CountedFrom : List ClientId → ℤ → Fast → List Output → Type 0
CountedFrom cs max f os = Counted cs max f.turn_number os

abbrev Fits : Game → ℕ → List Output → Round Fast → Type 0
Fits game n rest r =
    Follows (CountedFrom (clients game) game.nb_turns_max) r.next rest
    → Counted (clients game) game.nb_turns_max n (r.outputs ++ rest)

collect-Fits :
    (game : Game) (f : Fast) (rest : List Output) → Fits game f.turn_number rest (collect [] f)
unfolding collect
collect-Fits game f rest = elim (Bool-cases (are_all_values_true f.received)) [
  | inl done ↦ rw done (λ c. c)
  | inr open_ ↦ rw open_ (λ c. c)
]

collect-Fits_turn :
    (ack : MessageDoTurnAck) (game : Game) (n : ℕ) (f : Fast) (rest : List Output)
    → f.turn_number ≡ suc n
    → ltb_ℤ (pos (suc n)) game.nb_turns_max ≡ true
    → Fits game n rest (collect (handle_gl_forward_turn_to_clients ack (suc n) game ∷ []) f)
unfolding collect
collect-Fits_turn ack game n f rest e below = elim (Bool-cases (are_all_values_true f.received)) [
  | inl done ↦
      rw (done, e)
        (λ c.
          forward-Counted ack n game game.nb_turns_max (do_turn f.player_actions ∷ rest)
            (ground arith) c)
  | inr open_ ↦
      rw (open_, e) (λ c. forward-Counted ack n game game.nb_turns_max rest (ground arith) c)
]

turn-Fits :
    (ack : MessageDoTurnAck) (game : Game) (f : Fast) (r : Round Fast) (rest : List Output)
    → turn ack game f ≡ returns r
    → Fits game f.turn_number rest r
unfolding turn finish
turn-Fits ack game f r rest h =
    elim (Bool-cases (ltb_ℤ (pos (suc f.turn_number)) game.nb_turns_max)) [
      | inl below ↦ subst (Fits game f.turn_number rest) (returns_inj (rw below at h)) (
          collect-Fits_turn ack game f.turn_number
            (record f {
              turn_number = suc f.turn_number;
              received = map (λ id. (id, false)) f.connected;
            })
            rest refl below)
      | inr above ↦
          let (os, ends, e) = >>=-eq-returns (end_game ack game) _ (rw above at h) in
          let (sends, whole, shape) = end_game_shape ack game os ends in
          subst (Fits game f.turn_number rest) (returns_inj e)
            (λ c. rw (shape, c) (whole, ground arith, tt))
    ]

message-Fits :
    (reception : MessageDoTurnAck ⊎ Reason) (game : Game) (f : Fast) (r : Round Fast)
    (rest : List Output)
    → on_message reception game f ≡ returns r
    → Fits game f.turn_number rest r
unfolding on_message
message-Fits (inr reason) game f r rest h =
    subst (Fits game f.turn_number rest) (returns_inj h) (λ c. rw c tt)
message-Fits (inl ack) game f r rest h = turn-Fits ack game f r rest h

blocks≢returns : {A : Type 0} {a : A} → blocks ≢ returns a
blocks≢returns h = cc

step-Fits :
    (game : Game) (e : Event) (phase : Phase) (f : Fast) (r : Round Fast) (rest : List Output)
    → f.phase ≡ phase
    → step game e f ≡ returns r
    → Fits game f.turn_number rest r
unfolding step while_waiting while_collecting on_action on_disconnection
step-Fits game (can_terminate reason) phase f r rest p h =
    subst (Fits game f.turn_number rest) (returns_inj h) (λ c. rw c tt)
step-Fits game (incoming message) waiting_ack f r rest p h =
    message-Fits reception game f r rest (subst (λ q. while_waiting q round ≡ returns r) p h)
  where
    reception : MessageDoTurnAck ⊎ Reason
    reception = handle_gl_do_turn_ack_reception game.nb_players message

    round : Outcome (Round Fast)
    round = on_message reception game f
step-Fits game (incoming message) collecting f r rest p h = absurd (blocks≢returns (rw p at h))
step-Fits game (player_action action) waiting_ack f r rest p h = absurd (blocks≢returns (rw p at h))
step-Fits game (player_action action) collecting f r rest p h =
    subst (Fits game f.turn_number rest) (returns_inj (rw p at h)) (
      collect-Fits game
        (record f {
          received = put action.player_id f.received;
          player_actions =
              if is_connected action.player_id f.connected
              then f.player_actions ++ (action ∷ [])
              else f.player_actions;
        })
        rest)
step-Fits game (player_disconnected id) waiting_ack f r rest p h =
    absurd (blocks≢returns (rw p at h))
step-Fits game (player_disconnected id) collecting f r rest p h =
    subst (Fits game f.turn_number rest) (returns_inj (rw p at h)) (
      collect-Fits game
        (record f { received = put id f.received; connected = delete id f.connected }) rest)

-- In fast mode, from the first turn on: every client that the game began with is handed the turns
-- 0, 1, 2, … in order, each once and all the same number; GAME_ENDS goes to every one of them
-- exactly behind the turn `nb_turns_max` - 2, or at once if there is none, and nothing is sent
-- after it.
pub run-Counted_fast :
    (game : Game) (es : List Event) (f : Fast) (r : Round Fast)
    → f.turn_number ≡ 0
    → run game es f ≡ returns r
    → Counted (clients game) game.nb_turns_max 0 r.outputs
unfolding run
run-Counted_fast game es f r zero_ h =
    subst (λ n. Counted (clients game) game.nb_turns_max n r.outputs) zero_
      (run-Good (CountedFrom (clients game) game.nb_turns_max) (step game) (λ s. tt)
        (λ e s r₁ rest first. step-Fits game e s.phase s r₁ rest refl first) es f r h)
