-- ===== src/Server/Progress.antt =====
-- What runs under the global mutex ends, once the mutex is taken; `Mutex` is about waiting for it.
use netorcai.Prelude.{
  ◌≢◌, ℕ, List, Bool-cases, ◌≡◌, refl, sym, subst, ◌∙◌, ◌⊎◌, inl, inr, length, arith, false, [],
  ◌∷◌, All-append,
}
use netorcai.Strconv.{Strconv}
use netorcai.Outcome.{Chan, returns, blocks, make_chan}
use netorcai.State.{
  GameState, running, not_running, PlayerOrVisuClient, Infos, GameLogicClient, GlobalState, Reason,
}
use netorcai.GameLogic.Traffic.{Traffic, takes_start, takes_action, takes_disconnection, hands_over}
use netorcai.Login.{autostart, is_not_running}
use netorcai.Login.Joins.{Joins, handle_client-Joins}
use netorcai.Login.Autostart.{AllFresh, autostart_cases, autostart_ends}
use netorcai.Departure.{is_running, Departure, kick_logged_player_or_visu}
use netorcai.Departure.Effects.{kick_logged_player_or_visu-IsDeparture}
use netorcai.Departure.Endings.{
  MustWait, kick_logged_player_or_visu_cases, kick_logged_player_or_visu-idle,
}
use netorcai.Prompt.{Shell, Printed, executor}
use netorcai.Prompt.Lines.{start}
use netorcai.Prompt.Starts.{executor-start_returns, started}
use netorcai.Prompt.Effects.{
  Effect, nothing, starts, sets_turns, sets_players, sets_special_players, sets_visus,
  sets_first_delay, sets_delay, not_running-eq, executor_line-Effect,
}
use netorcai.Main.Settings.{initialize_global_state-IsInitial}
use netorcai.Server.{
  Step, login, starts_itself, departs, uses_channel, typed, Reach, begins, goes_on,
}
use netorcai.Server.Invariant.{Reach-OneGameLogic}

-- While no game runs, no game logic has a start order.
abbrev HasNoOrder : GlobalState → Type 0
HasNoOrder gs = gs.game_state ≡ not_running → AllFresh gs.game_logic

not_running-idle : (s : GameState) → s ≡ not_running → is_running s ≡ false
not_running-idle s h = rw h refl

Joins-HasNoOrder : (gs gs' : GlobalState) → Joins gs gs' → HasNoOrder gs → HasNoOrder gs'
Joins-HasNoOrder gs _ Joins.nobody v = v
Joins-HasNoOrder gs _ (Joins.player c idle room) v = v
Joins-HasNoOrder gs _ (Joins.special_player c idle room) v = v
Joins-HasNoOrder gs _ (Joins.visu c room) v = v
Joins-HasNoOrder gs _ (Joins.game_logic gl idle none fresh) v =
    λ _. All-append (λ g. g.start ≡ make_chan 1) gs.game_logic (gl ∷ []) (v idle) (fresh, tt)

Effect-HasNoOrder : (gs gs' : GlobalState) → Effect gs gs' → HasNoOrder gs → HasNoOrder gs'
Effect-HasNoOrder gs _ nothing v = v
Effect-HasNoOrder gs _ (starts gls idle one one') v = λ h. cc
Effect-HasNoOrder gs _ (sets_turns n lo hi) v = v
Effect-HasNoOrder gs _ (sets_players n lo hi) v = v
Effect-HasNoOrder gs _ (sets_special_players n lo hi) v = v
Effect-HasNoOrder gs _ (sets_visus n lo hi) v = v
Effect-HasNoOrder gs _ (sets_first_delay d fits) v = v
Effect-HasNoOrder gs _ (sets_delay d fits) v = v

-- A fresh channel has nothing to be taken, and no other channel matters.
Traffic-fresh :
    (gl gl' : GameLogicClient) → Traffic gl gl' → gl.start ≡ make_chan 1 → gl'.start ≡ make_chan 1
Traffic-fresh gl _ (takes_start order c h) fresh = absurd (ground (arith, rw fresh at h))
Traffic-fresh gl _ (takes_action action c h) fresh = fresh
Traffic-fresh gl _ (takes_disconnection player_id c h) fresh = fresh
Traffic-fresh gl _ (hands_over action c h) fresh = fresh

-- How the pieces that run under the global mutex, and `autostart`, end in a state.
pub record Ends (strconv : Strconv) (gs : GlobalState) : Type 0 where
  pub starts_game :
      (exit : Chan ℕ) (printed : List Printed)
      → (s' : Shell) × (executor strconv start
            (record { global = gs; exit = exit; printed = printed })
          ≡ returns s')
        × ((s'.global.game_state ≡ running) ⊎ (length gs.game_logic ≢ 1))
  pub starts_itself :
      ((gs' : GlobalState) × (autostart gs ≡ returns gs')) ⊎ (gs.game_state ≡ running)
  pub departs :
      (pv : PlayerOrVisuClient) (reason : Reason) (infos : Infos)
      → ((d : Departure) × (kick_logged_player_or_visu pv reason gs infos ≡ returns d))
        ⊎ (MustWait pv gs × (kick_logged_player_or_visu pv reason gs infos ≡ blocks))

module _ (strconv : Strconv) where
  Step-HasNoOrder : (gs gs' : GlobalState) → Step strconv gs gs' → HasNoOrder gs → HasNoOrder gs'
  Step-HasNoOrder _ _ (login ack client message gs) v =
      Joins-HasNoOrder gs _ (handle_client-Joins ack client message gs) v
  Step-HasNoOrder _ _ (starts_itself gs gs' h) v = elim ((autostart_cases gs).1 gs' h) [
    | inl same ↦ subst HasNoOrder (sym same) v
    | inr (gl, complete, room, e) ↦ subst HasNoOrder (sym e) (λ idle. cc)
  ]
  Step-HasNoOrder _ _ (departs pv reason gs infos d h) v = λ idle.
      let l = (kick_logged_player_or_visu-IsDeparture pv reason gs infos d h).leaves in
      let idle' = sym l.game_state ∙ idle in
      subst AllFresh
        (sym (
          kick_logged_player_or_visu-idle pv reason gs infos d
            (not_running-idle gs.game_state idle') h))
        (v idle')
  Step-HasNoOrder _ _ (uses_channel gs gl gl' gls one t) v = λ idle.
      let (fresh, others) : AllFresh (gl ∷ gls) = subst AllFresh one (v idle) in
      (Traffic-fresh gl gl' t fresh, others)
  Step-HasNoOrder _ _ (typed text s s' h) v =
      Effect-HasNoOrder s.global s'.global (executor_line-Effect strconv text s s' h) v

  Reach-HasNoOrder : (gs : GlobalState) → Reach strconv gs → HasNoOrder gs
  Reach-HasNoOrder _ (begins arguments gs h) = λ idle.
      subst AllFresh (sym (initialize_global_state-IsInitial strconv arguments gs h).nobody) tt
  Reach-HasNoOrder _ (goes_on gs gs' r s) = Step-HasNoOrder gs gs' s (Reach-HasNoOrder gs r)

  -- What runs in the critical sections, once the global mutex has been taken, in every state that
  -- the server reaches: the command `start` gives the mutex back, and the game runs then or there
  -- is not one game logic; a departure gives it back, but for that of a player in a running game in
  -- fast mode while the channel that tells the game logic of it is full: this one holds the mutex
  -- and waits; and `autostart`, which takes no mutex, returns, or the game runs already. Nothing is
  -- said of how long the mutex is waited for.
  pub Reach-Ends : (gs : GlobalState) → Reach strconv gs → Ends strconv gs
  Reach-Ends gs r =
      let v = Reach-HasNoOrder gs r in
      let o = Reach-OneGameLogic strconv gs r in
      record {
        starts_game = λ exit printed.
            executor-start_returns strconv (record { global = gs; exit = exit; printed = printed })
              o.not_finished v;
        starts_itself = elim (Bool-cases (is_not_running gs.game_state)) [
          | inl idle ↦ inl (autostart_ends gs (v (not_running-eq gs.game_state idle)))
          | inr already ↦ inr (started gs.game_state o.not_finished already)
        ];
        departs = λ pv reason infos.
            elim (kick_logged_player_or_visu_cases pv reason gs infos o.in_game) [
              | inl (d, run, _) ↦ inl (d, run)
              | inr waits ↦ inr waits
            ];
      }
