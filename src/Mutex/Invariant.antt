-- ===== src/Mutex/Invariant.antt =====
-- The mutex has one holder, and a game in which the goroutines go on.
use netorcai.Prelude.{
  ℤ, ◌<◌, ◌≡◌, refl, sym, subst, ap, ◌∙◌, ◌⊎◌, inl, inr, List, [], ◌∷◌, none, some, All, length,
  arith,
}
use netorcai.Outcome.{Chan, returns, returns_inj, receive}
use netorcai.State.{running, GameLogicClient, GlobalState}
use netorcai.Departure.{Departure, kick_logged_player_or_visu}
use netorcai.Departure.Endings.{Hears, kick_logged_player_or_visu_cases}
use netorcai.Mutex.{
  wants, holds, Leaver, System, Step, copy_begins, copy_ends, init_acked, starts_client,
  all_started, turn_acked, enters, leaves, hears, Steps, done, more,
}
use netorcai.Mutex.Deadlock.{IsOver, IsDeadlocked, blocks-ne-returns, progress_cases}

abbrev HasRooms : List GameLogicClient → Type 0
HasRooms gls = All (λ gl. 0 < gl.player_disconnected.capacity) gls

-- The game logic of a running game is there, its channel has room for one departure, and the mutex has one
-- holder at most.
pub record Sound (s : System) : Type 0 where
  pub one : s.global.game_state ≡ running → length s.global.game_logic ≡ 1
  pub rooms : HasRooms s.global.game_logic
  pub exclusive : s.phase ≡ holds → s.inside ≡ none

-- What is received leaves the room as it is.
receive-capacity : (b c : Chan ℤ) (id : ℤ) → receive b ≡ some (id, c) → c.capacity ≡ b.capacity
receive-capacity b c id h = go b.queue refl
  where
    go : (queue : List ℤ) → b.queue ≡ queue → c.capacity ≡ b.capacity
    go [] q = absurd (ground (arith, rw q at h))
    go (x ∷ xs) q = ground (arith, rw q at h)

Hears-one :
    (l : Leaver) (gs gs' : GlobalState)
    → Hears l.pv gs gs'
    → (gs.game_state ≡ running → length gs.game_logic ≡ 1)
    → gs'.game_state ≡ running
    → length gs'.game_logic ≡ 1
Hears-one l gs gs' (state, inl same) one on = ap length same ∙ one (sym state ∙ on)
Hears-one l gs gs' (state, inr (gl, gls, only, told)) one on =
    ap length told ∙ ap length (sym only) ∙ one (sym state ∙ on)

Hears-HasRooms :
    (l : Leaver) (gs gs' : GlobalState)
    → Hears l.pv gs gs'
    → HasRooms gs.game_logic
    → HasRooms gs'.game_logic
Hears-HasRooms l gs gs' (state, inl same) rooms = subst HasRooms (sym same) rooms
Hears-HasRooms l gs gs' (state, inr (gl, gls, only, told)) rooms =
    let (room, others) : HasRooms (gl ∷ gls) = subst HasRooms only rooms in
    subst HasRooms (sym told) (room, others)

departs-Hears :
    (s : System) (l : Leaver) (d : Departure)
    → Sound s
    → kick_logged_player_or_visu l.pv l.reason s.global s.infos ≡ returns d
    → Hears l.pv s.global d.global
departs-Hears s l d v run =
    elim (kick_logged_player_or_visu_cases l.pv l.reason s.global s.infos v.one) [
      | inl (d', run', told) ↦
          subst (λ q. Hears l.pv s.global q.global) (returns_inj (sym run' ∙ run)) told
      | inr (must, waits) ↦ absurd (blocks-ne-returns waits run)
    ]

Step-Sound : (s s' : System) → Step s s' → Sound s → Sound s'
Step-Sound s _ (copy_begins _ free phase) v = record {
  one = v.one;
  rooms = v.rooms;
  exclusive = λ _. free;
}
Step-Sound s _ (copy_ends _ phase) v = record { one = v.one; rooms = v.rooms; exclusive = λ h. cc }
Step-Sound s _ (init_acked _ cs phase) v = record {
  one = v.one;
  rooms = v.rooms;
  exclusive = λ h. cc;
}
Step-Sound s _ (starts_client _ c cs phase here) v = record {
  one = v.one;
  rooms = v.rooms;
  exclusive = λ h. cc;
}
Step-Sound s _ (all_started _ phase) v = record {
  one = v.one;
  rooms = v.rooms;
  exclusive = λ h. cc;
}
Step-Sound s _ (turn_acked _ phase) v = record { one = v.one; rooms = v.rooms; exclusive = λ h. cc }
Step-Sound s _ (enters _ before after l free unheld split) v = record {
  one = v.one;
  rooms = v.rooms;
  exclusive = λ h. absurd (unheld h);
}
Step-Sound s _ (leaves _ l d holder run) v =
    let told = departs-Hears s l d v run in
    record {
      one = Hears-one l s.global d.global told v.one;
      rooms = Hears-HasRooms l s.global d.global told v.rooms;
      exclusive = λ _. refl;
    }
Step-Sound s _ (hears _ gl gls id c phase only first) v =
    let (room, others) : HasRooms (gl ∷ gls) = subst HasRooms only v.rooms in
    record {
      one = λ on. ap length (sym only) ∙ v.one on;
      rooms = (
        subst (λ n. 0 < n) (sym (receive-capacity gl.player_disconnected c id first)) room,
        others,
      );
      exclusive = v.exclusive;
    }

Steps-Sound : (s s' : System) → Steps s s' → Sound s → Sound s'
Steps-Sound _ _ (done s) v = v
Steps-Sound _ _ (more s s' s'' steps step) v = Step-Sound s' s'' step (Steps-Sound s s' steps v)

-- If a running game has its game logic, the channel that tells it of departures has room for one, and nobody holds
-- the mutex: whatever the order in which the clients leave and the game logic takes the game to its first turn, the
-- mutex never has two holders; and at every time some goroutine can go on, or everybody has left and the game
-- logic collects the actions of the turn, or it is one of two deadlocks, and then none ever goes on. In the first one a
-- player holds the mutex and waits for the game logic while that one waits for the mutex. In the second one the game
-- logic waits for a client that has left to receive GAME_STARTS, and either nobody else leaves or a player holds
-- the mutex and waits for the game logic.
pub Steps-progress :
    (s s' : System)
    → (s.global.game_state ≡ running → length s.global.game_logic ≡ 1)
    → All (λ gl. 0 < gl.player_disconnected.capacity) s.global.game_logic
    → s.phase ≡ wants
    → s.inside ≡ none
    → Steps s s'
    → (s'.phase ≡ holds → s'.inside ≡ none)
      × (((s'' : System) × Step s' s'')
          ⊎ (IsOver s' ⊎ (IsDeadlocked s' × ((s'' : System) → ¬ Step s' s''))))
Steps-progress s s' one rooms idle free steps =
    let v = Steps-Sound s s' steps (record { one = one; rooms = rooms; exclusive = λ _. free }) in
    (v.exclusive, progress_cases s' v.one v.rooms)
