-- ===== src/GameControl/Mailboxes.antt =====
-- `handleGlForwardTurnToClients`: the sends on the channels `newTurn`, of capacity 100, one after the
-- other. The game logic sends to every client that the game began with, and nobody receives any more
-- for one that has left.
use mathlib.Core.Path.{ap₂}
use mathlib.Core.List.{map-append}
use netorcai.Prelude.{
  ℕ, ◌≤◌, ◌≡◌, refl, ap, sym, subst, ◌∙◌, ◌⊎◌, inl, inr, List, [], ◌∷◌, ◌++◌, map, Bool-cases, ◌==◌,
  ==_iff, if◌then◌else◌, length, ltb, arith,
}
use netorcai.Outcome.{Outcome, returns, blocks, ◌>>=◌, Chan, send}
use netorcai.Outgoing.{MessageTurn}
use netorcai.Messages.{MessageDoTurnAck}
use netorcai.State.{ClientId}
use netorcai.GameControl.{Game, turn_for, turns_for}

abbrev pub Mailboxes : Type 0
Mailboxes = ClientId → Chan MessageTurn

put_into : ClientId → Chan MessageTurn → Mailboxes → Mailboxes
put_into c box boxes q = if c == q then box else boxes q

unfoldable pub deliver : List (ClientId × MessageTurn) → Mailboxes → Outcome Mailboxes
unfolding put_into
deliver [] boxes = returns boxes
deliver (s ∷ ss) boxes = do box ← send s.1 (boxes s.0); deliver ss (put_into s.0 box boxes)

abbrev pub Among : ClientId → List ClientId → Type 0
Among c [] = ⊥
Among c (d ∷ ds) = (d ≡ c) ⊎ Among c ds

abbrev pub IsFull : Chan MessageTurn → Type 0
IsFull box = box.capacity ≤ length box.queue

send-full : (m : MessageTurn) (box : Chan MessageTurn) → IsFull box → send m box ≡ blocks
send-full m box h = ground arith

send_cases :
    (m : MessageTurn) (box : Chan MessageTurn)
    → (send m box ≡ blocks) ⊎ ((box' : Chan MessageTurn) × (send m box ≡ returns box'))
send_cases m box = elim (Bool-cases (ltb (length box.queue) box.capacity)) [
  | inl room ↦ inr (record box { queue = box.queue ++ (m ∷ []) }, rw room refl)
  | inr full ↦ inl (rw full refl)
]

deliver-full :
    (ss : List (ClientId × MessageTurn)) (boxes : Mailboxes) (c : ClientId)
    → Among c (map (λ s. s.0) ss)
    → IsFull (boxes c)
    → deliver ss boxes ≡ blocks
unfolding deliver put_into
deliver-full [] boxes c among full = absurd among
deliver-full (s ∷ ss) boxes c (inl e) full =
    rw (send-full s.1 (boxes s.0) (subst (λ q. IsFull (boxes q)) (sym e) full)) refl
deliver-full (s ∷ ss) boxes c (inr among) full = elim (Bool-cases (s.0 == c)) [
  | inl hit ↦
      rw
        (send-full s.1 (boxes s.0)
          (subst (λ q. IsFull (boxes q)) (sym ((==_iff s.0 c).0 hit)) full))
        refl
  | inr miss ↦ elim (send_cases s.1 (boxes s.0)) [
    | inl e ↦ rw e refl
    | inr (box, e) ↦ rw e (deliver-full ss (put_into s.0 box boxes) c among (rw miss full))
  ]
]

turn_for-clients :
    (ack : MessageDoTurnAck) (n : ℕ) (infos cs : List ClientId)
    → map (λ s. s.0) (map (turn_for ack n infos) cs) ≡ cs
unfolding turn_for
turn_for-clients ack n infos [] = refl
turn_for-clients ack n infos (c ∷ cs) = ap (◌∷◌ c) (turn_for-clients ack n infos cs)

pub turns_for-clients :
    (ack : MessageDoTurnAck) (n : ℕ) (game : Game)
    → map (λ s. s.0) (turns_for ack n game) ≡ game.all_players ++ game.visus
unfolding turns_for
turns_for-clients ack n game =
    map-append (λ s. s.0) (map (turn_for ack n []) game.all_players) _
    ∙ ap₂ ◌++◌ (turn_for-clients ack n [] game.all_players)
        (turn_for-clients ack n (map (λ p. p.0) game.players_info) game.visus)

-- If the channel of one client that the game began with is full and nobody receives on it, the game
-- logic waits when it hands out the next turn.
pub deliver-turns_for :
    (ack : MessageDoTurnAck) (n : ℕ) (game : Game) (boxes : Mailboxes) (c : ClientId)
    → Among c (game.all_players ++ game.visus)
    → IsFull (boxes c)
    → deliver (turns_for ack n game) boxes ≡ blocks
deliver-turns_for ack n game boxes c among full =
    deliver-full (turns_for ack n game) boxes c
      (subst (Among c) (sym (turns_for-clients ack n game)) among) full
