-- ===== src/PlayerOrVisu/Rounds.antt =====
-- The rounds of a behaviour loop, one by one: what each writes, and how a run is made of them.
use netorcai.Prelude.{
  ◌≤◌, ◌≡◌, refl, ap, sym, ◌⊎◌, inl, inr, List, [], ◌∷◌, ◌++◌, Bool, true, false, Option, length,
  arith,
}
use netorcai.Result.{Error}
use netorcai.Outcome.{returns, returns_inj, Outcome-cases}
use netorcai.State.{ready, GameLogicClient}
use netorcai.Outgoing.{MessageTurn}
use netorcai.PlayerOrVisu.{
  Handler, Event, can_terminate, game_starts, game_ends, new_turn, incoming, incoming_unheard, Next,
  loops, leaves_by_kick, leaves_by_error, waits_finition, Round, Output, sent_game_starts,
  sent_game_ends, sent_turn, forwarded, step, run,
}

-- The turns that the game logic hands to the loop.
abbrev pub arrivals : List Event → List MessageTurn
arrivals [] = []
arrivals (new_turn turn sent ∷ es) = turn ∷ arrivals es
arrivals (can_terminate reason ∷ es) = arrivals es
arrivals (game_starts m sent ∷ es) = arrivals es
arrivals (game_ends m sent ∷ es) = arrivals es
arrivals (incoming message sent ∷ es) = arrivals es
arrivals (incoming_unheard message sent ∷ es) = arrivals es

-- The turns that are written to the socket.
abbrev pub turns : List Output → List MessageTurn
turns [] = []
turns (sent_turn turn ∷ os) = turn ∷ turns os
turns (sent_game_starts m ∷ os) = turns os
turns (sent_game_ends m ∷ os) = turns os
turns (forwarded action ∷ os) = turns os

pub turns-append : (os os' : List Output) → turns (os ++ os') ≡ turns os ++ turns os'
turns-append [] os' = refl
turns-append (sent_turn turn ∷ os) os' = ap (◌∷◌ turn) (turns-append os os')
turns-append (sent_game_starts m ∷ os) os' = turns-append os os'
turns-append (sent_game_ends m ∷ os) os' = turns-append os os'
turns-append (forwarded action ∷ os) os' = turns-append os os'

abbrev pub is_loop : Next → Bool
is_loop (loops h) = true
is_loop _ = false

-- The last round writes no turn.
pub step_last :
    (gls : List GameLogicClient) (e : Event) (h : Handler) (r : Round)
    → step gls e h ≡ returns r
    → is_loop r.next ≡ false
    → turns r.outputs ≡ []
unfolding step
step_last gls e h r did last = ground arith

pub Short-cases {ℓ} :
    {A : Type ℓ} (xs : List A) → length xs ≤ 1 → (xs ≡ []) ⊎ ((x : A) × (xs ≡ x ∷ []))
Short-cases [] h = inl refl
Short-cases (x ∷ []) h = inr (x, refl)
Short-cases (x ∷ y ∷ xs) h = absurd (omega arith)

-- A round with an empty buffer and without a new turn writes none and buffers none.
pub step_idle :
    (gls : List GameLogicClient) (e : Event) (h h' : Handler) (r : Round)
    → arrivals (e ∷ []) ≡ []
    → h.turn_buffer ≡ []
    → step gls e h ≡ returns r
    → r.next ≡ loops h'
    → (turns r.outputs ≡ []) × (h'.turn_buffer ≡ [])
unfolding step
step_idle gls (new_turn turn sent) h h' r quiet empty did next = cc
step_idle gls e h h' r quiet empty did next = ground arith

-- With a turn buffered it writes that turn, or keeps it.
pub step_flush :
    (gls : List GameLogicClient) (e : Event) (h h' : Handler) (r : Round) (turn : MessageTurn)
    → arrivals (e ∷ []) ≡ []
    → h.turn_buffer ≡ turn ∷ []
    → step gls e h ≡ returns r
    → r.next ≡ loops h'
    → ((turns r.outputs ≡ []) × (h'.turn_buffer ≡ turn ∷ []))
      ⊎ ((turns r.outputs ≡ turn ∷ []) × (h'.turn_buffer ≡ []))
unfolding step
step_flush gls (new_turn turn' sent) h h' r turn quiet one did next = cc
step_flush gls e h h' r turn quiet one did next = ground arith

-- A new turn is written, buffered in place of an older one, or dropped.
pub step_new_turn :
    (gls : List GameLogicClient) (turn : MessageTurn) (sent : Option Error) (h h' : Handler)
    (r : Round)
    → (h.pv.client.state ≡ ready → h.turn_buffer ≡ [])
    → ((h.turn_buffer ≡ []) ⊎ ((t : MessageTurn) × (h.turn_buffer ≡ t ∷ [])))
    → step gls (new_turn turn sent) h ≡ returns r
    → r.next ≡ loops h'
    → ((turns r.outputs ≡ []) × (h'.turn_buffer ≡ h.turn_buffer))
      ⊎ ((turns r.outputs ≡ []) × (h'.turn_buffer ≡ turn ∷ []))
      ⊎ ((turns r.outputs ≡ turn ∷ []) × (h.turn_buffer ≡ []) × (h'.turn_buffer ≡ []))
unfolding step
step_new_turn gls turn sent h h' r empty short did next = ground arith

Next-cases : (n : Next) → ((h : Handler) × (n ≡ loops h)) ⊎ (is_loop n ≡ false)
Next-cases (loops h) = inl (h, refl)
Next-cases (leaves_by_kick h reason) = inr refl
Next-cases (leaves_by_error h reason) = inr refl
Next-cases (waits_finition h reason) = inr refl

-- The first round of a run, and the run behind it.
abbrev pub FirstRound : List GameLogicClient → Handler → Event → List Event → Round → Type 0
FirstRound gls h e es r =
    (r₁ : Round) × (step gls e h ≡ returns r₁)
    × (((is_loop r₁.next ≡ false) × (r.outputs ≡ r₁.outputs))
        ⊎ ((h' : Handler) × (r₂ : Round) × (r₁.next ≡ loops h')
            × (run gls h' es ≡ returns r₂)
            × (r.outputs ≡ r₁.outputs ++ r₂.outputs)))

pub run_first :
    (gls : List GameLogicClient) (h : Handler) (e : Event) (es : List Event) (r : Round)
    → run gls h (e ∷ es) ≡ returns r
    → FirstRound gls h e es r
unfolding run
run_first gls h e es r did = elim (Outcome-cases (step gls e h)) [
  | inl (r₁, e₁) ↦ elim (Next-cases r₁.next) [
    | inl (h', n) ↦ elim (Outcome-cases (run gls h' es)) [
      | inl (r₂, e₂) ↦ (
        r₁,
        e₁,
        inr (h', r₂, n, e₂, ap (λ x. x.outputs) (sym (returns_inj (rw (e₁, run, n, e₂) at did)))),
      )
      | inr (inl b) ↦ absurd (ground arith)
      | inr (inr p) ↦ absurd (ground arith)
    ]
    | inr last ↦ (r₁, e₁, inl (last, ground arith))
  ]
  | inr (inl b) ↦ absurd (ground arith)
  | inr (inr p) ↦ absurd (ground arith)
]

pub run_nil :
    (gls : List GameLogicClient) (h : Handler) (r : Round)
    → run gls h [] ≡ returns r
    → r.outputs ≡ []
unfolding run
run_nil gls h r did = ground arith
