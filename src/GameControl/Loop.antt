-- ===== src/GameControl/Loop.antt =====
-- The `for { select … }` loops of control_gl.go: a state, the rounds that take it on, and their run.
use mathlib.Core.List.{append-nil}
use netorcai.Prelude.{◌≡◌, ap, ◌⊎◌, inl, inr, refl, subst, List, [], ◌∷◌, ◌++◌}
use netorcai.Outcome.{Outcome, returns, blocks, panics, ◌>>=◌, >>=-eq-returns, returns_inj}
use netorcai.GameControl.{Output}

-- The loop goes on, or the goroutine returns, at once or behind `waitGameLogicFinition`.
pub data Next (S : Type 0) : Type 0 where
  loops : S → Next S
  returns_now : Next S
  waits_finition : Next S

pub record Round (S : Type 0) : Type 0 where
  pub outputs : List Output
  pub next : Next S

module _ {S : Type 0} where
  pub loops_inj : {s s' : S} → loops s ≡ loops s' → s ≡ s'
  loops_inj h = cc

  unfoldable pub prefix : List Output → Round S → Round S
  prefix outputs r = record { outputs = outputs ++ r.outputs; next = r.next }

  unfoldable pub continue_with : (S → Outcome (Round S)) → Round S → Outcome (Round S)
  unfolding prefix
  continue_with rest r = elim r.next [
    | loops s ↦ (rest s >>= λ r'. returns (prefix r.outputs r'))
    | other ↦ returns r
  ]

  -- The rounds on a sequence of events, up to the one that ends the loop.
  unfoldable pub run : {E : Type 0} → (E → S → Outcome (Round S)) → List E → S → Outcome (Round S)
  unfolding continue_with
  run step [] s = returns (record { outputs = []; next = loops s })
  run step (e ∷ es) s = step e s >>= continue_with (run step es)

  module _ (Good : S → List Output → Type 0) where
    -- What may follow a round.
    abbrev pub Follows : Next S → List Output → Type 0
    Follows (loops s) rest = Good s rest
    Follows _ rest = rest ≡ []

    continue_Good :
        (s : S) (outputs : List Output) (next : Next S) (go : S → Outcome (Round S)) (r : Round S)
        → ((rest : List Output) → Follows next rest → Good s (outputs ++ rest))
        → ((s' : S) (r' : Round S) → go s' ≡ returns r' → Good s' r'.outputs)
        → continue_with go (record { outputs = outputs; next = next }) ≡ returns r
        → Good s r.outputs
    unfolding continue_with prefix
    continue_Good s outputs (loops s') go r first later h =
        let (r', run_rest, e) = >>=-eq-returns (go s') _ h in
        subst (λ q. Good s q.outputs) (returns_inj e) (first r'.outputs (later s' r' run_rest))
    continue_Good s outputs returns_now go r first later h =
        subst (λ q. Good s q.outputs) (returns_inj h)
          (subst (Good s) (append-nil outputs) (first [] refl))
    continue_Good s outputs waits_finition go r first later h =
        subst (λ q. Good s q.outputs) (returns_inj h)
          (subst (Good s) (append-nil outputs) (first [] refl))

    -- A property of the outputs to come, round by round.
    pub run-Good :
        {E : Type 0} (step : E → S → Outcome (Round S))
        → ((s : S) → Good s [])
        → ((e : E) (s : S) (r : Round S) (rest : List Output)
            → step e s ≡ returns r
            → Follows r.next rest
            → Good s (r.outputs ++ rest))
        → (es : List E) (s : S) (r : Round S) → run step es s ≡ returns r
        → Good s r.outputs
    unfolding run
    run-Good step done each [] s r h = subst (λ q. Good s q.outputs) (returns_inj h) (done s)
    run-Good step done each (e ∷ es) s r h =
        let (r₁, first, rest) = >>=-eq-returns (step e s) _ h in
        continue_Good s r₁.outputs r₁.next (run step es) r (λ os f. each e s r₁ os first f)
          (λ s' r' h'. run-Good step done each es s' r' h') rest

  pub run_first :
      {E : Type 0} (step : E → S → Outcome (Round S)) (e : E) (es : List E) (s s' : S) (r : Round S)
      → step e s ≡ returns (record { outputs = []; next = loops s' })
      → run step es s' ≡ returns r
      → run step (e ∷ es) s ≡ returns r
  unfolding run continue_with prefix
  run_first step e es s s' r h h' = rw (h, h') refl

  -- A run that stops with `o`, in a round whose state is `At` for its event.
  pub record StopsAt (o : Outcome (Round S)) {E : Type 0} (step : E → S → Outcome (Round S))
      (At : E → S → Type 0) (es : List E) (s : S) : Type 0 where
    pub before : List E
    pub event : E
    pub after : List E
    pub split : es ≡ before ++ (event ∷ after)
    pub state : S
    pub outputs : List Output
    pub reaches : run step before s ≡ returns (record { outputs = outputs; next = loops state })
    pub is_at : At event state
    pub stops_there : step event state ≡ o

  -- A run waits for ever at a round that is `Off`, panics at one that is `Bad`, or returns.
  abbrev pub RunCases :
      {E : Type 0}
      → (E → S → Outcome (Round S))
      → (E → S → Type 0)
      → (E → S → Type 0)
      → (List Output → Type 0)
      → List E
      → S
      → Type 0
  RunCases step Off Bad Out es s =
      StopsAt blocks step Off es s
      ⊎ (StopsAt panics step Bad es s
          ⊎ ((r : Round S) × (run step es s ≡ returns r) × Out r.outputs))

  abbrev pub StepCases :
      {E : Type 0}
      → (E → S → Outcome (Round S))
      → (E → S → Type 0)
      → (E → S → Type 0)
      → (S → Type 0)
      → (List Output → Type 0)
      → E
      → S
      → Type 0
  StepCases step Off Bad Inv Out e s =
      ((step e s ≡ blocks) × Off e s)
      ⊎ (((step e s ≡ panics) × Bad e s)
          ⊎ ((r : Round S) × (step e s ≡ returns r)
              × ((s' : S) → r.next ≡ loops s' → Inv s')
              × Out r.outputs))

  stops_first :
      {E : Type 0} (o : Outcome (Round S)) (step : E → S → Outcome (Round S)) (At : E → S → Type 0)
      (e : E) (es : List E) (s : S)
      → step e s ≡ o
      → At e s
      → StopsAt o step At (e ∷ es) s
  unfolding run
  stops_first o step At e es s stops at = record {
    before = [];
    event = e;
    after = es;
    split = refl;
    state = s;
    outputs = [];
    reaches = refl;
    is_at = at;
    stops_there = stops;
  }

  stops_later :
      {E : Type 0} (o : Outcome (Round S)) (step : E → S → Outcome (Round S)) (At : E → S → Type 0)
      (e : E) (es : List E) (s s' : S) (outputs : List Output)
      → step e s ≡ returns (record { outputs = outputs; next = loops s' })
      → StopsAt o step At es s'
      → StopsAt o step At (e ∷ es) s
  unfolding run continue_with prefix
  stops_later o step At e es s s' outputs first p = record {
    before = e ∷ p.before;
    event = p.event;
    after = p.after;
    split = ap (◌∷◌ e) p.split;
    state = p.state;
    outputs = outputs ++ p.outputs;
    reaches = rw (first, p.reaches) refl;
    is_at = p.is_at;
    stops_there = p.stops_there;
  }

  pub run_cases :
      {E : Type 0} (Inv : S → Type 0) (Out : List Output → Type 0) (Off Bad : E → S → Type 0)
      (step : E → S → Outcome (Round S))
      → Out []
      → ((xs ys : List Output) → Out xs → Out ys → Out (xs ++ ys))
      → ((e : E) (s : S) → Inv s → StepCases step Off Bad Inv Out e s)
      → (es : List E) (s : S) → Inv s
      → RunCases step Off Bad Out es s
  unfolding run continue_with prefix
  run_cases Inv Out Off Bad step nil join each [] s v =
      inr (inr (record { outputs = []; next = loops s }, refl, nil))
  run_cases Inv Out Off Bad step nil join each (e ∷ es) s v = elim (each e s v) [
    | inl (waits, off) ↦ inl (stops_first blocks step Off e es s waits off)
    | inr (inl (fails, bad)) ↦ inr (inl (stops_first panics step Bad e es s fails bad))
    | inr (inr (r, first, kept, out)) ↦
        go r.outputs r.next first kept out
          (λ s'. run_cases Inv Out Off Bad step nil join each es s')
  ]
    where
      go :
          (outputs : List Output) (next : Next S)
          → step e s ≡ returns (record { outputs = outputs; next = next })
          → ((s' : S) → next ≡ loops s' → Inv s')
          → Out outputs
          → ((s' : S) → Inv s' → RunCases step Off Bad Out es s')
          → RunCases step Off Bad Out (e ∷ es) s
      go outputs (loops s') first kept out later = elim (later s' (kept s' refl)) [
        | inl p ↦ inl (stops_later blocks step Off e es s s' outputs first p)
        | inr (inl p) ↦ inr (inl (stops_later panics step Bad e es s s' outputs first p))
        | inr (inr (r, rest, out')) ↦ inr (
            inr (
              record { outputs = outputs ++ r.outputs; next = r.next },
              rw (first, rest) refl,
              join outputs r.outputs out out',
            ))
      ]
      go outputs returns_now first kept out later =
          inr (inr (record { outputs = outputs; next = returns_now }, rw first refl, out))
      go outputs waits_finition first kept out later =
          inr (inr (record { outputs = outputs; next = waits_finition }, rw first refl, out))
