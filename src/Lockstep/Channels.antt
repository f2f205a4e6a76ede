-- ===== src/Lockstep/Channels.antt =====
-- What the two loops put on the channels in one round, and whom the loop of the game logic waits for.
use mathlib.Core.List.{append-nil}
use netorcai.Prelude.{
  ℕ, suc, ◌+◌, ◌≡◌, refl, ap, ◌∙◌, inl, inr, List, [], ◌∷◌, ◌++◌, map, true, none, ◌==◌,
  if◌then◌else◌, Bool-cases, length, length-append, arith,
}
use netorcai.Result.{Result, ok, err, Result-cases}
use netorcai.Json.{Fields}
use netorcai.Outcome.{returns}
use netorcai.Outgoing.{MessageTurn}
use netorcai.Messages.{MessageDoTurnAck, read_turn_ack_message}
use netorcai.State.{ClientId, ready, thinking, MessageDoTurnPlayerAction, GameLogicClient}
use netorcai.GameControl.{Game, turn_for, turns_for, handle_gl_forward_turn_to_clients}
use netorcai.PlayerOrVisu
use netorcai.PlayerOrVisu.{Handler}
use netorcai.Lockstep.{turns_to, outputs_to, actions_of}

unfoldable pub occurrences : ClientId → List ClientId → ℕ
occurrences c [] = 0
occurrences c (d ∷ ds) = let n = occurrences c ds in if d == c then suc n else n

occurrences-append :
    (c : ClientId) (cs ds : List ClientId)
    → occurrences c (cs ++ ds) ≡ occurrences c cs + occurrences c ds
unfolding occurrences
occurrences-append c [] ds = omega arith
occurrences-append c (e ∷ cs) ds = ground (arith, occurrences-append c cs ds)

turns_to-append :
    (c : ClientId) (ms ns : List (ClientId × MessageTurn))
    → turns_to c (ms ++ ns) ≡ turns_to c ms ++ turns_to c ns
unfolding turns_to
turns_to-append c [] ns = refl
turns_to-append c ((d, m) ∷ ms) ns = elim (Bool-cases (d == c)) [
  | inl hit ↦ rw hit (ap (◌∷◌ m) (turns_to-append c ms ns))
  | inr miss ↦ rw miss (turns_to-append c ms ns)
]

length-turns_to :
    (c : ClientId) (ack : MessageDoTurnAck) (n : ℕ) (infos cs : List ClientId)
    → length (turns_to c (map (turn_for ack n infos) cs)) ≡ occurrences c cs
unfolding turns_to occurrences turn_for
length-turns_to c ack n infos [] = refl
length-turns_to c ack n infos (d ∷ cs) = elim (Bool-cases (d == c)) [
  | inl hit ↦ rw hit (ap suc (length-turns_to c ack n infos cs))
  | inr miss ↦ rw miss (length-turns_to c ack n infos cs)
]

-- As many turns for a client as the game has entries of it.
length-turns_for :
    (c : ClientId) (ack : MessageDoTurnAck) (n : ℕ) (game : Game)
    → length (turns_to c (turns_for ack n game)) ≡ occurrences c (game.all_players ++ game.visus)
unfolding turns_for
length-turns_for c ack n game =
    ap length (
      turns_to-append c (map (turn_for ack n []) game.all_players)
        (map (turn_for ack n (map (λ p. p.0) game.players_info)) game.visus))
    ∙ omega (
      arith,
      length-append (turns_to c (map (turn_for ack n []) game.all_players))
          (turns_to c (map (turn_for ack n (map (λ p. p.0) game.players_info)) game.visus)),
      length-turns_to c ack n [] game.all_players,
      length-turns_to c ack n (map (λ p. p.0) game.players_info) game.visus,
      occurrences-append c game.all_players game.visus,
    )

single {ℓ} : {A : Type ℓ} (xs : List A) → length xs ≡ 1 → (a : A) × (xs ≡ a ∷ [])
single [] h = absurd (omega (arith, h))
single (a ∷ []) h = (a, refl)
single (a ∷ b ∷ xs) h = absurd (omega (arith, h))

-- A client that the game has once gets one turn.
pub outputs_to-forward :
    (c : ClientId) (ack : MessageDoTurnAck) (n : ℕ) (game : Game)
    → occurrences c (game.all_players ++ game.visus) ≡ 1
    → (m : MessageTurn) × (outputs_to c (handle_gl_forward_turn_to_clients ack n game ∷ [])
        ≡ m ∷ [])
unfolding outputs_to handle_gl_forward_turn_to_clients
outputs_to-forward c ack n game once =
    let (m, e) =
      single (turns_to c (turns_for ack n game)) (length-turns_for c ack n game ∙ once) in
    (m, append-nil (turns_to c (turns_for ack n game)) ∙ e)

-- The round in which a player's loop takes a turn from its channel.
pub takes_turn_round :
    (gls : List GameLogicClient) (turn : MessageTurn) (h h' : Handler) (r : PlayerOrVisu.Round)
    → h.pv.client.state ≡ ready
    → PlayerOrVisu.step gls (PlayerOrVisu.new_turn turn none) h ≡ returns r
    → r.next ≡ PlayerOrVisu.loops h'
    → (h'.pv.client.state ≡ thinking)
      × (actions_of r.outputs ≡ [])
      × (h'.pv.is_player ≡ h.pv.is_player)
      × (h'.pv.player_id ≡ h.pv.player_id)
      × (h'.turn_buffer ≡ h.turn_buffer)
unfolding PlayerOrVisu.step actions_of
takes_turn_round gls turn h h' r state did next = ground arith

-- The round in which it takes an answer, with no turn in the buffer.
pub answer_round :
    (gls : List GameLogicClient) (message : Result Fields) (h h' : Handler) (r : PlayerOrVisu.Round)
    → h.pv.is_player ≡ true
    → h.turn_buffer ≡ []
    → PlayerOrVisu.step gls (PlayerOrVisu.incoming message none) h ≡ returns r
    → r.next ≡ PlayerOrVisu.loops h'
    → (h.pv.client.state ≡ thinking)
      × (h'.pv.client.state ≡ ready)
      × ((action : MessageDoTurnPlayerAction) × (actions_of r.outputs ≡ action ∷ [])
          × (action.player_id ≡ h.pv.player_id))
      × (h'.pv.is_player ≡ h.pv.is_player)
      × (h'.pv.player_id ≡ h.pv.player_id)
      × (h'.turn_buffer ≡ [])
unfolding PlayerOrVisu.step actions_of
answer_round gls (err e) h h' r player empty did next = absurd (ground arith)
answer_round gls (ok content) h h' r player empty did next =
    elim (Result-cases (read_turn_ack_message content h.last_turn_number_sent)) [
      | inl (ack, e) ↦ (
        ground arith,
        ground arith,
        (
          record {
            player_id = h.pv.player_id;
            turn_number = ack.turn_number;
            actions = ack.actions;
          },
          ground arith,
          refl,
        ),
        ground arith,
        ground arith,
        ground arith,
      )
      | inr (x, e) ↦ absurd (ground arith)
    ]
