-- ===== src/GameControl/Fast/Collecting.antt =====
-- When a turn in fast mode is over.
use netorcai.Prelude.{
  ℤ, eqb_ℤ, ◌≡◌, refl, subst, ap, sym, ◌∙◌, ◌≢◌, inl, inr, List, [], ◌∷◌, ◌++◌, Bool, true, false,
  ◌||◌, none, some, if◌then◌else◌, Bool-cases, All,
}
use mathlib.Core.Bool.{false≢true}
use mathlib.Core.List.{append_assoc, append-nil}
use netorcai.Outcome.{returns}
use netorcai.State.{MessageDoTurnPlayerAction}
use netorcai.GameControl.Loop
use netorcai.GameControl.Loop.{
  Next, loops, returns_now, waits_finition, Round, run_first, run-Good, Follows,
}
use netorcai.GameControl.{Game, do_turn}
use netorcai.GameControl.Fast.{
  Fast, waiting_ack, collecting, Event, can_terminate, incoming, player_action, player_disconnected,
  put, are_all_values_true, collect, step, run, is_connected, delete,
}
use netorcai.GameControl.Fast.Received.{
  subject, Plays, is_about, heard, awaited, nobody_left, Distinct, put-Distinct, awaited-put, Waits,
  Waits-put, Waits-not_all,
}

-- The actions of a sequence of events that count: those of players that are connected when they act.
abbrev pub accepted : List ℤ → List Event → List MessageDoTurnPlayerAction
accepted ids [] = []
accepted ids (player_action action ∷ es) =
    if is_connected action.player_id ids then action ∷ accepted ids es else accepted ids es
accepted ids (player_disconnected id ∷ es) = accepted (delete id ids) es
accepted ids (can_terminate reason ∷ es) = accepted ids es
accepted ids (incoming message ∷ es) = accepted ids es

-- The players that are still connected behind the events.
abbrev pub remaining : List ℤ → List Event → List ℤ
remaining ids [] = ids
remaining ids (player_disconnected id ∷ es) = remaining (delete id ids) es
remaining ids (player_action action ∷ es) = remaining ids es
remaining ids (can_terminate reason ∷ es) = remaining ids es
remaining ids (incoming message ∷ es) = remaining ids es

-- The round of an event of a player, before the test of the inner loop.
record EventRound (game : Game) (e : Event) (f : Fast) : Type 0 where
  heard_of : Fast
  id : ℤ
  about : subject e ≡ some id
  received : heard_of.received ≡ put id f.received
  runs : step game e f ≡ returns (collect [] heard_of)
  counts :
      (es : List Event)
      → heard_of.player_actions ++ accepted heard_of.connected es
        ≡ f.player_actions ++ accepted f.connected (e ∷ es)
  leaves : (es : List Event) → remaining heard_of.connected es ≡ remaining f.connected (e ∷ es)

-- An action that counts stands behind those before it.
counts_action :
    (ids : List ℤ) (action : MessageDoTurnPlayerAction)
    (before later : List MessageDoTurnPlayerAction)
    → (if is_connected action.player_id ids then before ++ (action ∷ []) else before) ++ later
      ≡ before ++ (if is_connected action.player_id ids then action ∷ later else later)
counts_action ids action before later = elim (Bool-cases (is_connected action.player_id ids)) [
  | inl on ↦ rw on (append_assoc before (action ∷ []) later)
  | inr off ↦ rw off refl
]

event_round :
    (game : Game) (e : Event) (f : Fast)
    → f.phase ≡ collecting
    → subject e ≢ none
    → EventRound game e f
unfolding step
event_round game (can_terminate reason) f h s = absurd (s refl)
event_round game (incoming message) f h s = absurd (s refl)
event_round game (player_action action) f h s = record {
  heard_of = record f {
    received = put action.player_id f.received;
    player_actions =
        if is_connected action.player_id f.connected
        then f.player_actions ++ (action ∷ [])
        else f.player_actions;
  };
  id = action.player_id;
  about = refl;
  received = refl;
  runs = rw h refl;
  counts = λ es. counts_action f.connected action f.player_actions (accepted f.connected es);
  leaves = λ es. refl;
}
event_round game (player_disconnected id) f h s = record {
  heard_of = record f { received = put id f.received; connected = delete id f.connected };
  id = id;
  about = refl;
  received = refl;
  runs = rw h refl;
  counts = λ es. refl;
  leaves = λ es. refl;
}

or-false : (a b : Bool) → (a || b) ≡ false → (a ≡ false) × (b ≡ false)
or-false false false h = (refl, refl)
or-false false true h = (refl, h)
or-false true b h = cc

collect_on :
    (g : Fast)
    → are_all_values_true g.received ≡ false
    → collect [] g ≡ record { outputs = []; next = loops (record g { phase = collecting }) }
unfolding collect
collect_on g h = rw h refl

collect_done :
    (g : Fast)
    → are_all_values_true g.received ≡ true
    → collect [] g ≡ record {
      outputs = do_turn g.player_actions ∷ [];
      next = loops (record g { phase = waiting_ack; player_actions = [] });
    }
unfolding collect
collect_done g h = rw h refl

-- While a connected player has neither acted nor left, the game logic is sent nothing, whatever the
-- other players do: the loop goes on collecting.
pub run-Waits :
    (game : Game) (c : ℤ) (es : List Event) (f : Fast)
    → f.phase ≡ collecting
    → Waits c f.received
    → Plays es
    → heard c es ≡ false
    → (f' : Fast) × (run game es f ≡ returns (record { outputs = []; next = loops f' }))
      × (f'.phase ≡ collecting)
      × Waits c f'.received
unfolding run Loop.run
run-Waits game c [] f h w p q = (f, refl, h, w)
run-Waits game c (e ∷ es) f h w p q =
    let round_ = event_round game e f h p.0 in
    let g = round_.heard_of in
    let (apart, later) =
      or-false (eqb_ℤ c round_.id) (heard c es)
        (subst (λ s. (is_about c s || heard c es) ≡ false) round_.about q) in
    let waits : Waits c g.received =
      subst (Waits c) (sym round_.received) (Waits-put round_.id c f.received apart w) in
    let round : step game e f
        ≡ returns (record { outputs = []; next = loops (record g { phase = collecting }) }) =
      round_.runs ∙ ap returns (collect_on g (Waits-not_all c g.received waits)) in
    let (f', rest_runs, phase, w') =
      run-Waits game c es (record g { phase = collecting }) refl waits p.1 later in
    (
      f',
      run_first (step game) e es f (record g { phase = collecting }) _ round rest_runs,
      phase,
      w',
    )

-- What a run that ends a turn leaves.
pub record TurnOver (game : Game) (played : List Event) (f : Fast) : Type 0 where
  pub actions : List MessageDoTurnPlayerAction
  pub after : Fast
  pub sends :
      run game played f ≡ returns (record { outputs = do_turn actions ∷ []; next = loops after })
  pub counted : actions ≡ f.player_actions ++ accepted f.connected played
  pub connected : after.connected ≡ remaining f.connected played
  pub waits_ack : after.phase ≡ waiting_ack
  pub emptied : after.player_actions ≡ []

-- Once every player that is waited for has acted or left, the turn is over: some event of theirs makes
-- the loop send one DO_TURN, with the actions collected before and then those of the players that were
-- connected when they acted, in the order of the events, and wait for the answer of the game logic with the
-- players that have left taken out.
pub run-TurnOver :
    (game : Game) (es : List Event) (f : Fast)
    → f.phase ≡ collecting
    → Distinct f.received
    → are_all_values_true f.received ≡ false
    → Plays es
    → All (λ c. heard c es ≡ true) (awaited f.received)
    → (played : List Event) × (rest : List Event) × (es ≡ played ++ rest) × TurnOver game played f
unfolding run Loop.run
run-TurnOver game [] f h d open_ p all =
    absurd (false≢true (sym open_ ∙ nobody_left f.received all))
run-TurnOver game (e ∷ es) f h d open_ p all =
    let round_ = event_round game e f h p.0 in
    let g = round_.heard_of in
    let distinct : Distinct g.received =
      subst Distinct (sym round_.received) (put-Distinct round_.id f.received d) in
    let left : All (λ c. heard c es ≡ true) (awaited g.received) =
      subst (λ m. All (λ c. heard c es ≡ true) (awaited m)) (sym round_.received)
        (awaited-put round_.id es f.received d (
          subst (λ s. All (λ c. (is_about c s || heard c es) ≡ true) (awaited f.received))
            round_.about all)) in
    elim (Bool-cases (are_all_values_true g.received)) [
      | inl done ↦ (
        e ∷ [],
        es,
        refl,
        record {
          actions = g.player_actions;
          after = record g { phase = waiting_ack; player_actions = [] };
          sends = rw (round_.runs ∙ ap returns (collect_done g done)) refl;
          counted = sym (append-nil g.player_actions) ∙ round_.counts [];
          connected = round_.leaves [];
          waits_ack = refl;
          emptied = refl;
        },
      )
      | inr open' ↦
          let on : Fast = record g { phase = collecting } in
          let (played, rest, split, over) = run-TurnOver game es on refl distinct open' p.1 left in
          (
            e ∷ played,
            rest,
            ap (◌∷◌ e) split,
            record {
              actions = over.actions;
              after = over.after;
              sends =
                  run_first (step game) e played f on _
                    (round_.runs ∙ ap returns (collect_on g open')) over.sends;
              counted = over.counted ∙ round_.counts played;
              connected = over.connected ∙ round_.leaves played;
              waits_ack = over.waits_ack;
              emptied = over.emptied;
            },
          )
    ]
