-- ===== src/Server/Bounds.antt =====
-- The parameters of the game in every state that the server reaches.
use netorcai.Prelude.{◌≡◌, refl, sym, subst, inl, inr}
use netorcai.Strconv.{Strconv}
use netorcai.State.{GlobalState}
use netorcai.Login.Joins.{Joins, handle_client-Joins}
use netorcai.Login.Autostart.{autostart_cases}
use netorcai.Departure.Effects.{kick_logged_player_or_visu-IsDeparture}
use netorcai.Prompt.Effects.{executor_line-Effect}
use netorcai.Prompt.Bounds.{WithinBounds, Effect-WithinBounds}
use netorcai.Main.Settings.{initialize_global_state-IsInitial}
use netorcai.Server.{
  Step, login, starts_itself, departs, uses_channel, typed, Reach, begins, goes_on,
}

-- The parameters stay.
abbrev SameParameters : GlobalState → GlobalState → Type 0
SameParameters gs gs' =
    (gs'.nb_turns_max ≡ gs.nb_turns_max)
    × (gs'.nb_players_max ≡ gs.nb_players_max)
    × (gs'.nb_special_players_max ≡ gs.nb_special_players_max)
    × (gs'.nb_visus_max ≡ gs.nb_visus_max)
    × (gs'.milliseconds_before_first_turn ≡ gs.milliseconds_before_first_turn)
    × (gs'.milliseconds_between_turns ≡ gs.milliseconds_between_turns)

same_bounds : (gs gs' : GlobalState) → SameParameters gs gs' → WithinBounds gs → WithinBounds gs'
same_bounds gs gs' (turns, players, specials, visus, first, delay) b = record {
  turns = rw turns (b.turns);
  players = rw players (b.players);
  special_players = rw specials (b.special_players);
  visus = rw visus (b.visus);
  first_delay = rw first (b.first_delay);
  delay = rw delay (b.delay);
}

Joins-SameParameters : (gs gs' : GlobalState) → Joins gs gs' → SameParameters gs gs'
Joins-SameParameters gs _ Joins.nobody = (refl, refl, refl, refl, refl, refl)
Joins-SameParameters gs _ (Joins.player c idle room) = (refl, refl, refl, refl, refl, refl)
Joins-SameParameters gs _ (Joins.special_player c idle room) = (refl, refl, refl, refl, refl, refl)
Joins-SameParameters gs _ (Joins.visu c room) = (refl, refl, refl, refl, refl, refl)
Joins-SameParameters gs _ (Joins.game_logic gl idle empty fresh) =
    (refl, refl, refl, refl, refl, refl)

module _ (strconv : Strconv) where
  Step-WithinBounds :
      (gs gs' : GlobalState) → Step strconv gs gs' → WithinBounds gs → WithinBounds gs'
  Step-WithinBounds _ _ (login ack client message gs) b =
      same_bounds gs _ (Joins-SameParameters gs _ (handle_client-Joins ack client message gs)) b
  Step-WithinBounds _ _ (starts_itself gs gs' h) b = elim ((autostart_cases gs).1 gs' h) [
    | inl same ↦ subst WithinBounds (sym same) b
    | inr (gl, complete, room, e) ↦
        subst WithinBounds (sym e) (same_bounds gs _ (refl, refl, refl, refl, refl, refl) b)
  ]
  Step-WithinBounds _ _ (departs pv reason gs infos d h) b =
      let l = (kick_logged_player_or_visu-IsDeparture pv reason gs infos d h).leaves in
      same_bounds gs d.global
        (l.turns_max, l.players_max, l.special_players_max, l.visus_max, l.first_delay, l.delay) b
  Step-WithinBounds _ _ (uses_channel gs gl gl' gls one t) b =
      same_bounds gs _ (refl, refl, refl, refl, refl, refl) b
  Step-WithinBounds _ _ (typed text s s' h) b =
      Effect-WithinBounds s.global s'.global (executor_line-Effect strconv text s s' h) b

  -- Whatever clients log in and leave, and whatever is typed, in any order: the numbers of turns,
  -- players, special players and visualizations are within their bounds, and neither delay is below 50 or above 10000.
  pub Reach-WithinBounds : (gs : GlobalState) → Reach strconv gs → WithinBounds gs
  Reach-WithinBounds _ (begins arguments gs h) =
      (initialize_global_state-IsInitial strconv arguments gs h).bounds
  Reach-WithinBounds _ (goes_on gs gs' r s) = Step-WithinBounds gs gs' s (Reach-WithinBounds gs r)
