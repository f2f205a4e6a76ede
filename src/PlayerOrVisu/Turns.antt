-- ===== src/PlayerOrVisu/Turns.antt =====
-- Which of the turns of the game logic reach a client.
use mathlib.Core.List.{Sublistᴰ}
use netorcai.Prelude.{
  ◌≤◌, ◌≡◌, refl, ap, subst, sym, ◌∙◌, inl, inr, List, [], ◌∷◌, ◌++◌, Bool, false, ◌||◌, Option,
  length, arith,
}
use netorcai.Result.{Error}
use netorcai.Outcome.{returns}
use netorcai.State.{ready, logged, PlayerOrVisuClient, GameLogicClient}
use netorcai.Outgoing.{MessageTurn}
use netorcai.PlayerOrVisu.{
  Handler, Event, can_terminate, game_starts, game_ends, new_turn, incoming, incoming_unheard,
  loops, Round, start_handler, step, run,
}
use netorcai.PlayerOrVisu.Invariant.{is_start, StartsOnce, Inv, start_handler-Inv, step-Inv}
use netorcai.PlayerOrVisu.Rounds.{
  arrivals, turns, turns-append, Short-cases, step_last, step_idle, step_flush, step_new_turn,
  run_first, run_nil,
}

nil-Sublist : (ts : List MessageTurn) → Sublistᴰ [] ts
nil-Sublist [] = Sublistᴰ.slnil
nil-Sublist (t ∷ ts) = Sublistᴰ.cons (nil-Sublist ts)

Sublist-append_left :
    (xs : List MessageTurn) {ts ys : List MessageTurn} → Sublistᴰ ts ys → Sublistᴰ ts (xs ++ ys)
Sublist-append_left [] s = s
Sublist-append_left (x ∷ xs) s = Sublistᴰ.cons (Sublist-append_left xs s)

Sublist-skip :
    (xs ys : List MessageTurn) {ts : List MessageTurn} (y : MessageTurn)
    → Sublistᴰ ts (xs ++ ys)
    → Sublistᴰ ts (xs ++ (y ∷ ys))
Sublist-skip [] ys y s = Sublistᴰ.cons s
Sublist-skip (x ∷ xs) ys y (Sublistᴰ.cons s) = Sublistᴰ.cons (Sublist-skip xs ys y s)
Sublist-skip (x ∷ xs) ys y (Sublistᴰ.cons-cons e s) = Sublistᴰ.cons-cons e (Sublist-skip xs ys y s)

-- A sublist under equal lists.
recast : {a b c d : List MessageTurn} → a ≡ b → c ≡ d → Sublistᴰ b d → Sublistᴰ a c
recast p q s = rw (p, q) s

extend_quiet :
    (gls : List GameLogicClient) (e : Event) (h h' : Handler) (r : Round)
    (ts later : List MessageTurn)
    → length h.turn_buffer ≤ 1
    → arrivals (e ∷ []) ≡ []
    → step gls e h ≡ returns r
    → r.next ≡ loops h'
    → Sublistᴰ ts (h'.turn_buffer ++ later)
    → Sublistᴰ (turns r.outputs ++ ts) (h.turn_buffer ++ later)
extend_quiet gls e h h' r ts later short quiet did next s = elim (Short-cases h.turn_buffer short) [
  | inl empty ↦
      let (none_sent, still) = step_idle gls e h h' r quiet empty did next in
      recast (ap (λ x. x ++ ts) none_sent) (ap (λ x. x ++ later) (empty ∙ sym still)) s
  | inr (turn, one) ↦ elim (step_flush gls e h h' r turn quiet one did next) [
    | inl (none_sent, still) ↦
        recast (ap (λ x. x ++ ts) none_sent) (ap (λ x. x ++ later) (one ∙ sym still)) s
    | inr (sent, empty) ↦
        recast (ap (λ x. x ++ ts) sent) (ap (λ x. x ++ later) one)
          (Sublistᴰ.cons-cons refl (recast refl (sym (ap (λ x. x ++ later) empty)) s))
  ]
]

extend_new_turn :
    (gls : List GameLogicClient) (turn : MessageTurn) (sent : Option Error) (h h' : Handler)
    (r : Round) (ts later : List MessageTurn)
    → (h.pv.client.state ≡ ready → h.turn_buffer ≡ [])
    → length h.turn_buffer ≤ 1
    → step gls (new_turn turn sent) h ≡ returns r
    → r.next ≡ loops h'
    → Sublistᴰ ts (h'.turn_buffer ++ later)
    → Sublistᴰ (turns r.outputs ++ ts) (h.turn_buffer ++ (turn ∷ later))
extend_new_turn gls turn sent h h' r ts later empty short did next s =
    elim (step_new_turn gls turn sent h h' r empty (Short-cases h.turn_buffer short) did next) [
      | inl (none_sent, still) ↦
          recast (ap (λ x. x ++ ts) none_sent) refl (
            Sublist-skip h.turn_buffer later turn
              (recast refl (sym (ap (λ x. x ++ later) still)) s))
      | inr (inl (none_sent, stored)) ↦
          recast (ap (λ x. x ++ ts) none_sent) refl
            (Sublist-append_left h.turn_buffer (recast refl (sym (ap (λ x. x ++ later) stored)) s))
      | inr (inr (written, was_empty, still_empty)) ↦
          recast (ap (λ x. x ++ ts) written) (ap (λ x. x ++ (turn ∷ later)) was_empty)
            (Sublistᴰ.cons-cons refl (recast refl (sym (ap (λ x. x ++ later) still_empty)) s))
    ]

extend :
    (started : Bool) (gls : List GameLogicClient) (e : Event) (es : List Event) (h h' : Handler)
    (r : Round) (ts : List MessageTurn)
    → Inv started h
    → step gls e h ≡ returns r
    → r.next ≡ loops h'
    → Sublistᴰ ts (h'.turn_buffer ++ arrivals es)
    → Sublistᴰ (turns r.outputs ++ ts) (h.turn_buffer ++ arrivals (e ∷ es))
extend started gls (new_turn turn sent) es h h' r ts v did next s =
    extend_new_turn gls turn sent h h' r ts (arrivals es)
      (λ idle. elim (Short-cases h.turn_buffer v.one_turn) [
        | inl empty ↦ empty
        | inr (t, one) ↦ absurd (ground (arith, v.buffered_thinks, ap length one))
      ])
      v.one_turn did next s
extend started gls (can_terminate reason) es h h' r ts v did next s =
    extend_quiet gls _ h h' r ts (arrivals es) v.one_turn refl did next s
extend started gls (game_starts m sent) es h h' r ts v did next s =
    extend_quiet gls _ h h' r ts (arrivals es) v.one_turn refl did next s
extend started gls (game_ends m sent) es h h' r ts v did next s =
    extend_quiet gls _ h h' r ts (arrivals es) v.one_turn refl did next s
extend started gls (incoming message sent) es h h' r ts v did next s =
    extend_quiet gls _ h h' r ts (arrivals es) v.one_turn refl did next s
extend started gls (incoming_unheard message sent) es h h' r ts v did next s =
    extend_quiet gls _ h h' r ts (arrivals es) v.one_turn refl did next s

run-Sublist :
    (started : Bool) (gls : List GameLogicClient) (es : List Event) (h : Handler) (r : Round)
    → Inv started h
    → StartsOnce started es
    → run gls h es ≡ returns r
    → Sublistᴰ (turns r.outputs) (h.turn_buffer ++ arrivals es)
run-Sublist started gls [] h r v once did =
    subst (λ os. Sublistᴰ (turns os) (h.turn_buffer ++ [])) (sym (run_nil gls h r did))
      (nil-Sublist (h.turn_buffer ++ []))
run-Sublist started gls (e ∷ es) h r v once did =
    let (r₁, first, rest) = run_first gls h e es r did in
    elim rest [
      | inl (last, os) ↦
          subst (λ ts. Sublistᴰ ts (h.turn_buffer ++ arrivals (e ∷ es)))
            (sym (ap turns os ∙ step_last gls e h r₁ first last)) (nil-Sublist _)
      | inr (h', r₂, n, did₂, os) ↦
          let v' = step-Inv started gls e h h' r₁ once.0 v first n in
          subst (λ ts. Sublistᴰ ts (h.turn_buffer ++ arrivals (e ∷ es)))
            (sym (ap turns os ∙ turns-append r₁.outputs r₂.outputs))
            (extend started gls e es h h' r₁ _ v first n
              (run-Sublist (started || is_start e) gls es h' r₂ v' once.1 did₂))
    ]

-- A client is sent a part of the turns that the game logic hands to its loop, in their order and
-- none of them twice, if GAME_STARTS comes once.
pub run-turns-Sublist :
    (gls : List GameLogicClient) (pv : PlayerOrVisuClient) (es : List Event) (r : Round)
    → pv.client.state ≡ logged
    → StartsOnce false es
    → run gls (start_handler pv) es ≡ returns r
    → Sublistᴰ (turns r.outputs) (arrivals es)
unfolding start_handler
run-turns-Sublist gls pv es r fresh once did =
    run-Sublist false gls es (start_handler pv) r (start_handler-Inv pv fresh) once did
