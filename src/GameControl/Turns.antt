-- ===== src/GameControl/Turns.antt =====
-- How many turns a game has: what the outputs of both loops keep to.
use netorcai.Prelude.{
  ◌≤ℤ◌, ◌<ℤ◌, ℕ, suc, ℤ, pos, ◌+ℤ◌, ◌≡◌, refl, ap, ◌∙◌, List, [], ◌∷◌, ◌++◌, map, All, arith,
}
use netorcai.Outcome.{>>=-eq-returns, returns}
use netorcai.Messages.{MessageDoTurnAck}
use netorcai.Outgoing.{MessageTurn, MessageGameEnds}
use netorcai.State.{ClientId, game_is_finished}
use mathlib.Core.Path.{ap₂}
use mathlib.Core.List.{map-append}
use netorcai.GameControl.Mailboxes.{turns_for-clients}
use netorcai.GameControl.{
  clients, Game, Output, do_turn, turns, game_ends, kicks, exits, turn_for, turns_for, end_for,
  handle_gl_forward_turn_to_clients, winner_entry, handle_gl_game_finished, end_game,
}

-- Nothing more for the clients or for the game logic to compute.
abbrev pub Silent : List Output → Type 0
Silent [] = Unit {0}
Silent (turns ts ∷ os) = ⊥
Silent (game_ends es ∷ os) = ⊥
Silent (do_turn as_ ∷ os) = ⊥
Silent (_ ∷ os) = Silent os

-- The turns bear the numbers `n`, `n + 1`, …, each is handed to every one of the clients `cs`, in their order, and
-- they stay below `max - 1`; GAME_ENDS goes to every one of them behind the number `max - 2`, and then nothing.
abbrev pub Counted : List ClientId → ℤ → ℕ → List Output → Type 0
Counted cs max n [] = Unit {0}
Counted cs max n (turns ts ∷ os) =
    ((map (λ s. s.0) ts ≡ cs) × All (λ s. s.1.turn_number ≡ pos n) ts)
    × (pos (suc n) <ℤ max)
    × Counted cs max (suc n) os
Counted cs max n (game_ends es ∷ os) = (map (λ s. s.0) es ≡ cs) × (max ≤ℤ pos (suc n)) × Silent os
Counted cs max n (_ ∷ os) = Counted cs max n os

abbrev AllNumbered : ℕ → List (ClientId × MessageTurn) → Type 0
AllNumbered n = All λ s. s.1.turn_number ≡ pos n

AllNumbered-append :
    (n : ℕ) (xs ys : List (ClientId × MessageTurn))
    → AllNumbered n xs
    → AllNumbered n ys
    → AllNumbered n (xs ++ ys)
AllNumbered-append n [] ys a b = b
AllNumbered-append n (x ∷ xs) ys a b = (a.0, AllNumbered-append n xs ys a.1 b)

turn_for-AllNumbered :
    (ack : MessageDoTurnAck) (n : ℕ) (infos : List ClientId) (cs : List ClientId)
    → All (λ s. s.1.turn_number ≡ pos n) (map (turn_for ack (suc n) infos) cs)
unfolding turn_for ◌+ℤ◌
turn_for-AllNumbered ack n infos [] = tt
turn_for-AllNumbered ack n infos (c ∷ cs) = (ground arith, turn_for-AllNumbered ack n infos cs)

pub turns_for-AllNumbered :
    (ack : MessageDoTurnAck) (n : ℕ) (game : Game)
    → All (λ s. s.1.turn_number ≡ pos n) (turns_for ack (suc n) game)
unfolding turns_for
turns_for-AllNumbered ack n game =
    AllNumbered-append n (map (turn_for ack (suc n) []) game.all_players) _
      (turn_for-AllNumbered ack n [] game.all_players)
      (turn_for-AllNumbered ack n (map (λ p. p.0) game.players_info) game.visus)

pub forward-Counted :
    (ack : MessageDoTurnAck) (n : ℕ) (game : Game) (max : ℤ) (os : List Output)
    → pos (suc n) <ℤ max
    → Counted (clients game) max (suc n) os
    → Counted (clients game) max n (handle_gl_forward_turn_to_clients ack (suc n) game ∷ os)
unfolding handle_gl_forward_turn_to_clients
forward-Counted ack n game max os h c =
    ((turns_for-clients ack (suc n) game, turns_for-AllNumbered ack n game), h, c)

-- The outputs at the end of a game.
end_for-clients :
    (ack : MessageDoTurnAck) (cs : List ClientId) → map (λ s. s.0) (map (end_for ack) cs) ≡ cs
unfolding end_for
end_for-clients ack [] = refl
end_for-clients ack (c ∷ cs) = ap (◌∷◌ c) (end_for-clients ack cs)

ends-clients :
    (ack : MessageDoTurnAck) (game : Game)
    → map (λ s. s.0) (map (end_for ack) game.all_players ++ map (end_for ack) game.visus)
      ≡ clients game
ends-clients ack game =
    map-append (λ s. s.0) (map (end_for ack) game.all_players) _
    ∙ ap₂ ◌++◌ (end_for-clients ack game.all_players) (end_for-clients ack game.visus)

pub end_game_shape :
    (ack : MessageDoTurnAck) (game : Game) (os : List Output)
    → end_game ack game ≡ returns os
    → (sends : List (ClientId × MessageGameEnds)) × (map (λ s. s.0) sends ≡ clients game)
      × (os ≡ game_ends sends ∷ kicks game_is_finished ∷ exits 0 ∷ [])
unfolding end_game handle_gl_game_finished
end_game_shape ack game os h =
    let ((winner, outputs), finished, e) = >>=-eq-returns (handle_gl_game_finished ack game) _ h in
    let (entry, _, e') =
      >>=-eq-returns (winner_entry ack.winner_player_id game.players_info) _ finished in
    (map (end_for ack) game.all_players ++ map (end_for ack) game.visus, ends-clients ack game, cc)
