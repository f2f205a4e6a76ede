-- ===== src/Mutex/Deadlock.antt =====
-- When the mutex is not given back.
use netorcai.Prelude.{
  ℤ, ◌<◌, ◌≡◌, ◌≢◌, All, false, subst, Option-cases, Bool-cases, Bool, sym, ap, ◌∙◌, refl, ◌⊎◌, inl,
  inr, List, [], ◌∷◌, ◌++◌, Option, none, some, true, length, ltb, arith,
}
use mathlib.Core.Bool.{false≢true}
use netorcai.Outcome.{Outcome, Chan, returns, blocks, receive, make_chan}
use netorcai.State.{ClientId, running, Infos, GameLogicClient, GlobalState}
use netorcai.Departure.{Departure, kick_logged_player_or_visu}
use netorcai.Departure.Endings.{
  MustWait, kick_logged_player_or_visu_cases, kick_logged_player_or_visu_twice,
}
use netorcai.Mutex.{
  Phase, wants, holds, awaits_init, starting, awaiting, collecting, Leaver, System, is_gone, Step,
  copy_begins, copy_ends, init_acked, starts_client, all_started, turn_acked, enters, leaves, hears,
  Steps, done, more,
}

-- Everybody has left, and the game logic collects the actions of the first turn.
pub record IsOver (s : System) : Type 0 where
  pub nobody_leaves : s.leaving ≡ []
  pub nobody_inside : s.inside ≡ none
  pub plays : s.phase ≡ collecting

-- A player holds the mutex and waits for the game logic to take its disconnection.
pub record HoldsAndWaits (s : System) : Type 0 where
  pub leaver : Leaver
  pub holder : s.inside ≡ some leaver
  pub waits : kick_logged_player_or_visu leaver.pv leaver.reason s.global s.infos ≡ blocks

-- No leaver goes on: none is left, or the mutex is not given back.
abbrev pub NobodyLeaves : System → Type 0
NobodyLeaves s = ((s.leaving ≡ []) × (s.inside ≡ none)) ⊎ HoldsAndWaits s

-- The game logic waits for a client that is gone to receive GAME_STARTS.
pub record StartsGone (s : System) : Type 0 where
  pub client : ClientId
  pub others : List ClientId
  pub phase : s.phase ≡ starting (client ∷ others)
  pub gone : is_gone client s.gone ≡ true

-- The holder waits for the game logic, which waits for the mutex; or the game logic waits for a client that is gone,
-- and no leaver goes on.
abbrev pub IsDeadlocked : System → Type 0
IsDeadlocked s = ((s.phase ≡ wants) × HoldsAndWaits s) ⊎ (StartsGone s × NobodyLeaves s)

taken : {a : Leaver} {o : Option Leaver} → o ≡ some a → o ≡ none → ⊥
taken h k = cc

same_leaver : {a b : Leaver} {o : Option Leaver} → o ≡ some a → o ≡ some b → a ≡ b
same_leaver h k = cc

abbrev is_wanting : Phase → Bool
is_wanting wants = true
is_wanting _ = false

abbrev is_starting_one : Phase → Bool
is_starting_one (starting (c ∷ cs)) = true
is_starting_one _ = false

abbrev is_collecting : Phase → Bool
is_collecting collecting = true
is_collecting _ = false

-- In another phase.
elsewhere :
    {p q : Phase} (test : Phase → Bool)
    → test p ≡ true
    → test q ≡ false
    → {r : Phase} → r ≡ p
    → r ≡ q
    → ⊥
elsewhere test on off h k = false≢true (sym off ∙ ap test (sym k ∙ h) ∙ on)

pub blocks-ne-returns : {o : Outcome Departure} {d : Departure} → o ≡ blocks → o ≡ returns d → ⊥
blocks-ne-returns h k = cc

no_entry :
    (s : System) (before after : List Leaver) (l : Leaver)
    → NobodyLeaves s
    → s.inside ≡ none
    → s.leaving ≡ before ++ (l ∷ after)
    → ⊥
no_entry s [] after l (inl (nobody, free)) empty split = cc
no_entry s (b ∷ before) after l (inl (nobody, free)) empty split = cc
no_entry s before after l (inr held) empty split = taken held.holder empty

no_exit :
    (s : System) (l : Leaver) (d : Departure)
    → NobodyLeaves s
    → s.inside ≡ some l
    → kick_logged_player_or_visu l.pv l.reason s.global s.infos ≡ returns d
    → ⊥
no_exit s l d (inl (nobody, free)) holder run = taken holder free
no_exit s l d (inr held) holder run = blocks-ne-returns held.waits (
    subst (λ q. kick_logged_player_or_visu q.pv q.reason s.global s.infos ≡ returns d)
      (same_leaver holder held.holder) run)

same_client :
    {c d : ClientId} {cs ds : List ClientId} {p : Phase}
    → p ≡ starting (c ∷ cs)
    → p ≡ starting (d ∷ ds)
    → c ≡ d
same_client h k = cc

wanting-stuck : (s s' : System) → s.phase ≡ wants → HoldsAndWaits s → ¬ Step s s'
wanting-stuck s _ e held (copy_begins _ free phase) = taken held.holder free
wanting-stuck s _ e held (copy_ends _ phase) = elsewhere is_wanting refl refl e phase
wanting-stuck s _ e held (init_acked _ cs phase) = elsewhere is_wanting refl refl e phase
wanting-stuck s _ e held (starts_client _ c cs phase here) = elsewhere is_wanting refl refl e phase
wanting-stuck s _ e held (all_started _ phase) = elsewhere is_wanting refl refl e phase
wanting-stuck s _ e held (turn_acked _ phase) = elsewhere is_wanting refl refl e phase
wanting-stuck s _ e held (enters _ before after l free phase split) = taken held.holder free
wanting-stuck s _ e held (leaves _ l d holder run) = no_exit s l d (inr held) holder run
wanting-stuck s _ e held (hears _ gl gls player_id c phase only first) =
    elsewhere is_wanting refl refl e phase

starting-stuck : (s s' : System) → StartsGone s → NobodyLeaves s → ¬ Step s s'
starting-stuck s _ g quiet (copy_begins _ free phase) =
    elsewhere is_starting_one refl refl g.phase phase
starting-stuck s _ g quiet (copy_ends _ phase) = elsewhere is_starting_one refl refl g.phase phase
starting-stuck s _ g quiet (init_acked _ cs phase) =
    elsewhere is_starting_one refl refl g.phase phase
starting-stuck s _ g quiet (starts_client _ c cs phase here) =
    false≢true (sym here ∙ ap (λ q. is_gone q s.gone) (same_client phase g.phase) ∙ g.gone)
starting-stuck s _ g quiet (all_started _ phase) = elsewhere is_starting_one refl refl g.phase phase
starting-stuck s _ g quiet (turn_acked _ phase) = elsewhere is_starting_one refl refl g.phase phase
starting-stuck s _ g quiet (enters _ before after l free phase split) =
    no_entry s before after l quiet free split
starting-stuck s _ g quiet (leaves _ l d holder run) = no_exit s l d quiet holder run
starting-stuck s _ g quiet (hears _ gl gls player_id c phase only first) =
    elsewhere is_starting_one refl refl g.phase phase

IsDeadlocked-stuck : (s s' : System) → IsDeadlocked s → ¬ Step s s'
IsDeadlocked-stuck s s' (inl (e, held)) = wanting-stuck s s' e held
IsDeadlocked-stuck s s' (inr (g, quiet)) = starting-stuck s s' g quiet

-- A full channel with room for one has a first element.
full-receive :
    (c : Chan ℤ)
    → 0 < c.capacity
    → ltb (length c.queue) c.capacity ≡ false
    → (player_id : ℤ) × (c' : Chan ℤ) × (receive c ≡ some (player_id, c'))
full-receive c room full = go c.queue refl
  where
    go :
        (queue : List ℤ)
        → c.queue ≡ queue
        → (player_id : ℤ) × (c' : Chan ℤ) × (receive c ≡ some (player_id, c'))
    go [] e = absurd (ground (arith, rw e at full))
    go (p ∷ ps) e = (p, record c { queue = ps }, rw e refl)

-- What the game logic can do: go on, wait for the mutex, wait for a client that is gone, or collect.
game_logic_cases :
    (s : System) (p : Phase)
    → s.phase ≡ p
    → ((s' : System) × Step s s')
      ⊎ (((s.phase ≡ wants) × ((l : Leaver) × (s.inside ≡ some l)))
          ⊎ (StartsGone s ⊎ (s.phase ≡ collecting)))
game_logic_cases s wants e = elim (Option-cases s.inside) [
  | inl free ↦ inl (_, copy_begins s free e)
  | inr held ↦ inr (inl (e, held))
]
game_logic_cases s holds e = inl (_, copy_ends s e)
game_logic_cases s (awaits_init cs) e = inl (_, init_acked s cs e)
game_logic_cases s (starting []) e = inl (_, all_started s e)
game_logic_cases s (starting (c ∷ cs)) e = elim (Bool-cases (is_gone c s.gone)) [
  | inl away ↦ inr (inr (inl (record { client = c; others = cs; phase = e; gone = away })))
  | inr here ↦ inl (_, starts_client s c cs e here)
]
game_logic_cases s awaiting e = inl (_, turn_acked s e)
game_logic_cases s collecting e = inr (inr (inr e))

-- What the leavers can do while the game logic does not hold the mutex.
leaver_cases :
    (s : System)
    → (s.global.game_state ≡ running → length s.global.game_logic ≡ 1)
    → s.phase ≢ holds
    → ((s' : System) × Step s s')
      ⊎ (((s.leaving ≡ []) × (s.inside ≡ none))
          ⊎ ((l : Leaver) × (s.inside ≡ some l)
              × MustWait l.pv s.global
              × (kick_logged_player_or_visu l.pv l.reason s.global s.infos ≡ blocks)))
leaver_cases s one unheld = elim (Option-cases s.inside) [
  | inl free ↦ go s.leaving refl free
  | inr (l, holder) ↦ elim (kick_logged_player_or_visu_cases l.pv l.reason s.global s.infos one) [
    | inl (d, run, _) ↦ inl (_, leaves s l d holder run)
    | inr (must, waits) ↦ inr (inr (l, holder, must, waits))
  ]
]
  where
    go :
        (ls : List Leaver)
        → s.leaving ≡ ls
        → s.inside ≡ none
        → ((s' : System) × Step s s')
          ⊎ (((s.leaving ≡ []) × (s.inside ≡ none))
              ⊎ ((l : Leaver) × (s.inside ≡ some l)
                  × MustWait l.pv s.global
                  × (kick_logged_player_or_visu l.pv l.reason s.global s.infos ≡ blocks)))
    go [] split free = inr (inl (split, free))
    go (l ∷ ls) split free = inl (_, enters s [] ls l free unheld split)

hears_progress :
    (s : System) (l : Leaver)
    → All (λ gl. 0 < gl.player_disconnected.capacity) s.global.game_logic
    → s.phase ≡ collecting
    → MustWait l.pv s.global
    → (s' : System) × Step s s'
hears_progress s l rooms e must =
    let (room, _) : All (λ gl. 0 < gl.player_disconnected.capacity) (must.gl ∷ must.gls) =
      subst (All (λ gl. 0 < gl.player_disconnected.capacity)) must.only rooms in
    let (player_id, c, first) = full-receive must.gl.player_disconnected room must.full in
    (_, hears s must.gl must.gls player_id c e must.only first)

-- If a running game has its game logic, and the channels that tell game logics of departures have room for one:
-- some goroutine can go on, or everybody has left and the game logic collects, or the state is a deadlock, and
-- then none ever can.
pub progress_cases :
    (s : System)
    → (s.global.game_state ≡ running → length s.global.game_logic ≡ 1)
    → All (λ gl. 0 < gl.player_disconnected.capacity) s.global.game_logic
    → ((s' : System) × Step s s') ⊎ (IsOver s ⊎ (IsDeadlocked s × ((s' : System) → ¬ Step s s')))
progress_cases s one rooms = elim (game_logic_cases s s.phase refl) [
  | inl step ↦ inl step
  | inr (inl (e, held)) ↦ elim (leaver_cases s one (λ h. elsewhere is_wanting refl refl e h)) [
    | inl step ↦ inl step
    | inr (inl (nobody, free)) ↦ absurd (taken held.1 free)
    | inr (inr (l, holder, must, waits)) ↦
        dead (inl (e, record { leaver = l; holder = holder; waits = waits }))
  ]
  | inr (inr (inl g)) ↦
      elim (leaver_cases s one (λ h. elsewhere is_starting_one refl refl g.phase h)) [
        | inl step ↦ inl step
        | inr (inl nobody) ↦ dead (inr (g, inl nobody))
        | inr (inr (l, holder, must, waits)) ↦
            dead (inr (g, inr (record { leaver = l; holder = holder; waits = waits })))
      ]
  | inr (inr (inr e)) ↦ elim (leaver_cases s one (λ h. elsewhere is_collecting refl refl e h)) [
    | inl step ↦ inl step
    | inr (inl (nobody, free)) ↦
        inr (inl (record { nobody_leaves = nobody; nobody_inside = free; plays = e }))
    | inr (inr (l, holder, must, waits)) ↦ inl (hears_progress s l rooms e must)
  ]
]
  where
    dead :
        IsDeadlocked s
        → ((s' : System) × Step s s')
          ⊎ (IsOver s ⊎ (IsDeadlocked s × ((s' : System) → ¬ Step s s')))
    dead d = inr (inr (d, λ s'. IsDeadlocked-stuck s s' d))

-- In a running game in fast mode, while the game logic wants the mutex to copy the state and has not been told of a
-- departure: if two players leave, some order of the steps ends in a state in which the second one holds the
-- mutex, and from which no goroutine goes on.
pub two_leave_stuck :
    (first second : Leaver) (others : List Leaver) (gone : List ClientId) (gs : GlobalState)
    (infos : Infos) (gl : GameLogicClient) (gls : List GameLogicClient)
    → first.pv.is_player ≡ true
    → second.pv.is_player ≡ true
    → gs.game_state ≡ running
    → gs.fast ≡ true
    → gs.game_logic ≡ gl ∷ gls
    → gl.player_disconnected ≡ make_chan 1
    → (s : System) × Steps
        (record {
          global = gs;
          infos = infos;
          leaving = first ∷ second ∷ others;
          gone = gone;
          inside = none;
          phase = wants;
        })
        s
      × (s.inside ≡ some second)
      × ((s' : System) → ¬ Step s s')
two_leave_stuck first second others gone gs infos gl gls p q run fast only empty =
    let (d, left, waits) =
      kick_logged_player_or_visu_twice first.pv second.pv first.reason second.reason gs infos gl gls
        p q run fast only empty in
    let s₀ : System = record {
      global = gs;
      infos = infos;
      leaving = first ∷ second ∷ others;
      gone = gone;
      inside = none;
      phase = wants;
    } in
    let s₁ : System = record s₀ { inside = some first; leaving = second ∷ others } in
    let s₂ : System = record s₁ { inside = none; global = d.global; infos = d.infos } in
    let s₃ : System = record s₂ { inside = some second; leaving = others } in
    let not_held : wants ≢ holds = λ h. cc in
    (
      s₃,
      more s₀ s₂ s₃
          (more s₀ s₁ s₂
            (more s₀ s₀ s₁ (done s₀) (enters s₀ [] (second ∷ others) first refl not_held refl))
            (leaves s₁ first d refl left))
          (enters s₂ [] others second refl not_held refl),
      refl,
      λ s'.
          IsDeadlocked-stuck s₃ s'
            (inl (refl, record { leaver = second; holder = refl; waits = waits })),
    )
