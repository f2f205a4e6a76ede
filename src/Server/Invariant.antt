-- ===== src/Server/Invariant.antt =====
-- In every state that the server reaches there is one game logic at most, and exactly one in a running game.
use netorcai.Prelude.{◌≤◌, ◌≡◌, refl, sym, ap, subst, ◌∙◌, ◌≢◌, inl, inr, length, arith, false}
use netorcai.Strconv.{Strconv}
use netorcai.Outcome.{panics}
use netorcai.State.{GameState, running, finished, PlayerOrVisuClient, Infos, GlobalState, Reason}
use netorcai.Login.{is_not_running}
use netorcai.Login.Admission.{handle_client-Effect}
use netorcai.Login.Autostart.{autostart_cases}
use netorcai.Login.GameLogics.{handle_client-game_logic}
use netorcai.Departure.{kick_logged_player_or_visu}
use netorcai.Departure.Effects.{kick_logged_player_or_visu-IsDeparture}
use netorcai.Departure.Safety.{kick_logged_player_or_visu_safe}
use netorcai.Prompt.Effects.{
  Effect, nothing, starts, sets_turns, sets_players, sets_special_players, sets_visus,
  sets_first_delay, sets_delay, executor_line-Effect,
}
use netorcai.Main.Settings.{initialize_global_state-IsInitial}
use netorcai.Server.{
  Step, login, starts_itself, departs, uses_channel, typed, Reach, begins, goes_on,
}

pub record OneGameLogic (gs : GlobalState) : Type 0 where
  pub at_most : length gs.game_logic ≤ 1
  pub in_game : gs.game_state ≡ running → length gs.game_logic ≡ 1
  pub not_finished : gs.game_state ≢ finished

running-not_idle : (s : GameState) → s ≡ running → is_not_running s ≡ false
running-not_idle s h = rw h refl

same_game :
    (gs gs' : GlobalState)
    → gs'.game_state ≡ gs.game_state
    → length gs'.game_logic ≡ length gs.game_logic
    → OneGameLogic gs
    → OneGameLogic gs'
same_game gs gs' state count v = record {
  at_most = omega (arith, count, v.at_most);
  in_game = λ on. count ∙ v.in_game (sym state ∙ on);
  not_finished = λ over. v.not_finished (sym state ∙ over);
}

Effect-OneGameLogic : (gs gs' : GlobalState) → Effect gs gs' → OneGameLogic gs → OneGameLogic gs'
Effect-OneGameLogic gs _ nothing v = v
Effect-OneGameLogic gs _ (starts gls idle one one') v = record {
  at_most = omega (arith, one');
  in_game = λ on. one';
  not_finished = λ over. cc;
}
Effect-OneGameLogic gs _ (sets_turns n lo hi) v = same_game gs _ refl refl v
Effect-OneGameLogic gs _ (sets_players n lo hi) v = same_game gs _ refl refl v
Effect-OneGameLogic gs _ (sets_special_players n lo hi) v = same_game gs _ refl refl v
Effect-OneGameLogic gs _ (sets_visus n lo hi) v = same_game gs _ refl refl v
Effect-OneGameLogic gs _ (sets_first_delay d fits) v = same_game gs _ refl refl v
Effect-OneGameLogic gs _ (sets_delay d fits) v = same_game gs _ refl refl v

module _ (strconv : Strconv) where
  Step-OneGameLogic :
      (gs gs' : GlobalState) → Step strconv gs gs' → OneGameLogic gs → OneGameLogic gs'
  Step-OneGameLogic _ _ (login ack client message gs) v =
      let e = handle_client-Effect ack client message gs in
      record {
        at_most = handle_client-game_logic ack client message gs v.at_most;
        in_game = λ on.
            let on' = sym e.state_kept ∙ on in
            ap length (e.game_logic_frozen (running-not_idle gs.game_state on')) ∙ v.in_game on';
        not_finished = λ over. v.not_finished (sym e.state_kept ∙ over);
      }
  Step-OneGameLogic _ _ (starts_itself gs gs' h) v = elim ((autostart_cases gs).1 gs' h) [
    | inl same ↦ subst OneGameLogic (sym same) v
    | inr (gl, complete, room, e) ↦
        subst OneGameLogic (sym e)
          (record { at_most = omega arith; in_game = λ on. refl; not_finished = λ over. cc })
  ]
  Step-OneGameLogic _ _ (departs pv reason gs infos d h) v =
      let l = (kick_logged_player_or_visu-IsDeparture pv reason gs infos d h).leaves in
      same_game gs d.global l.game_state l.count v
  Step-OneGameLogic _ _ (uses_channel gs gl gl' gls one t) v =
      same_game gs _ refl (sym (ap length one)) v
  Step-OneGameLogic _ _ (typed text s s' h) v =
      Effect-OneGameLogic s.global s'.global (executor_line-Effect strconv text s s' h) v

  -- Whatever clients log in and leave, and whatever is typed, in any order: there is one game logic
  -- at most, a running game has exactly one, and the state GAME_FINISHED is never entered.
  pub Reach-OneGameLogic : (gs : GlobalState) → Reach strconv gs → OneGameLogic gs
  Reach-OneGameLogic _ (begins arguments gs h) =
      let f = initialize_global_state-IsInitial strconv arguments gs h in
      record { at_most = f.limits.one_game_logic; in_game = λ on. cc; not_finished = λ over. cc }
  Reach-OneGameLogic _ (goes_on gs gs' r s) = Step-OneGameLogic gs gs' s (Reach-OneGameLogic gs r)

  -- In every reachable state a client can leave without a panic: `gs.GameLogic[0]` is in range.
  pub Reach-departs_safe :
      (gs : GlobalState) (pv : PlayerOrVisuClient) (reason : Reason) (infos : Infos)
      → Reach strconv gs
      → kick_logged_player_or_visu pv reason gs infos ≢ panics
  Reach-departs_safe gs pv reason infos r =
      kick_logged_player_or_visu_safe pv reason gs infos (Reach-OneGameLogic gs r).in_game
