-- ===== src/Server.antt =====
-- The shared state over the life of the program: what the goroutines of the clients and of the prompt
-- do to it, and what goes through the channels of the game logic, in any order. A login, a departure and `start` run under the global mutex, so each is one
-- step; `autostart` and `set` do not take it, and are taken as one step all the same.
pub mod Invariant
pub mod Bounds
pub mod Progress
use netorcai.Prelude.{
  String, ℕ, suc, ◌≤◌, ◌<◌, ◌≡◌, refl, sym, ap, subst, ◌∙◌, ◌≢◌, ◌⊎◌, inl, inr, List, [], ◌∷◌,
  length, arith, true, false, Bool-cases,
}
use netorcai.Result.{Result, ok}
use netorcai.Json.{Fields}
use netorcai.Strconv.{Strconv}
use netorcai.Outcome.{returns, panics}
use netorcai.State.{
  GameState, not_running, running, finished, Client, PlayerOrVisuClient, Infos, GameLogicClient,
  GlobalState, Reason,
}
use netorcai.Login.{Ack, handle_client, autostart, is_not_running}
use netorcai.Login.Admission.{handle_client-Effect}
use netorcai.Login.Autostart.{autostart_cases, IsComplete, ordered}
use netorcai.Login.GameLogics.{handle_client-game_logic}
use netorcai.GameLogic.Traffic.{Traffic}
use netorcai.Departure.{Departure, kick_logged_player_or_visu}
use netorcai.Departure.Effects.{kick_logged_player_or_visu-IsDeparture}
use netorcai.Departure.Safety.{kick_logged_player_or_visu_safe}
use netorcai.Prompt.{Shell, executor_line}
use netorcai.Main.{initialize_global_state}

module _ (strconv : Strconv) where
  pub data Step : GlobalState → GlobalState → Type 0 where
    login :
        (ack : Ack) (client : Client) (message : Result Fields) (gs : GlobalState)
        → Step gs (handle_client ack client message gs).0
    starts_itself : (gs gs' : GlobalState) → autostart gs ≡ returns gs' → Step gs gs'
    departs :
        (pv : PlayerOrVisuClient) (reason : Reason) (gs : GlobalState) (infos : Infos)
        (d : Departure)
        → kick_logged_player_or_visu pv reason gs infos ≡ returns d
        → Step gs d.global
    uses_channel :
        (gs : GlobalState) (gl gl' : GameLogicClient) (gls : List GameLogicClient)
        → gs.game_logic ≡ gl ∷ gls
        → Traffic gl gl'
        → Step gs (record gs { game_logic = gl' ∷ gls })
    typed :
        (text : String) (s s' : Shell)
        → executor_line strconv text s ≡ returns s'
        → Step s.global s'.global

  pub data Reach : GlobalState → Type 0 where
    begins :
        (arguments : Fields) (gs : GlobalState)
        → initialize_global_state strconv arguments ≡ returns (ok gs)
        → Reach gs
    goes_on : (gs gs' : GlobalState) → Reach gs → Step gs gs' → Reach gs'
