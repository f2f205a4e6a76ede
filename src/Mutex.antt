-- ===== src/Mutex.antt =====
-- The global mutex while a game begins: the goroutine of the game logic, which has taken the start order, copies the
-- shared state under it, waits for DO_INIT_ACK, sends GAME_STARTS to every client it has copied, and plays up to the first
-- turn (control_gl.go, `handleGameLogic` and `gameLogicGameControlFast`); and the goroutines of the clients that leave
-- meanwhile, each in `KickLoggedPlayerOrVisu` of control_pv.go. Only while it collects the actions of the turn does
-- the game logic take the disconnections of players. A failure of the game logic ends the program and is no step.
pub mod Deadlock
pub mod Invariant
use netorcai.Prelude.{
  ℤ, ◌≡◌, ◌≢◌, List, [], ◌∷◌, ◌++◌, Option, none, some, Bool, true, false, ◌==◌, if◌then◌else◌,
}
use netorcai.Outcome.{Chan, returns, receive}
use netorcai.State.{ClientId, PlayerOrVisuClient, Infos, GameLogicClient, GlobalState, Reason}
use netorcai.Departure.{Departure, kick_logged_player_or_visu}

-- The lists are the clients that are still to be told that the game starts.
pub data Phase : Type 0 where
  wants holds : Phase
  awaits_init : List ClientId → Phase
  starting : List ClientId → Phase
  awaiting collecting : Phase

-- A client that leaves, and why.
pub record Leaver : Type 0 where
  pub pv : PlayerOrVisuClient
  pub reason : Reason

-- `leaving` wait for the mutex, `inside` holds it; the game logic does if its phase is `holds`. `gone` are the clients whose
-- loop has ended, those that leave among them: nobody receives on their channel `gameStarts`.
pub record System : Type 0 where
  pub global : GlobalState
  pub infos : Infos
  pub leaving : List Leaver
  pub gone : List ClientId
  pub inside : Option Leaver
  pub phase : Phase

pub is_gone : ClientId → List ClientId → Bool
is_gone c [] = false
is_gone c (d ∷ ds) = if c == d then true else is_gone c ds

pub data Step : System → System → Type 0 where
  copy_begins :
      (s : System) → s.inside ≡ none → s.phase ≡ wants → Step s (record s { phase = holds })
  copy_ends :
      (s : System)
      → s.phase ≡ holds
      → Step s (record s {
        phase = awaits_init ((s.global.players ++ s.global.special_players) ++ s.global.visus);
      })
  init_acked :
      (s : System) (cs : List ClientId)
      → s.phase ≡ awaits_init cs
      → Step s (record s { phase = starting cs })
  starts_client :
      (s : System) (c : ClientId) (cs : List ClientId)
      → s.phase ≡ starting (c ∷ cs)
      → is_gone c s.gone ≡ false
      → Step s (record s { phase = starting cs })
  all_started : (s : System) → s.phase ≡ starting [] → Step s (record s { phase = awaiting })
  turn_acked : (s : System) → s.phase ≡ awaiting → Step s (record s { phase = collecting })
  enters :
      (s : System) (before after : List Leaver) (l : Leaver)
      → s.inside ≡ none
      → s.phase ≢ holds
      → s.leaving ≡ before ++ (l ∷ after)
      → Step s (record s { inside = some l; leaving = before ++ after })
  leaves :
      (s : System) (l : Leaver) (d : Departure)
      → s.inside ≡ some l
      → kick_logged_player_or_visu l.pv l.reason s.global s.infos ≡ returns d
      → Step s (record s { inside = none; global = d.global; infos = d.infos })
  hears :
      (s : System) (gl : GameLogicClient) (gls : List GameLogicClient) (player_id : ℤ) (c : Chan ℤ)
      → s.phase ≡ collecting
      → s.global.game_logic ≡ gl ∷ gls
      → receive gl.player_disconnected ≡ some (player_id, c)
      → Step s (record s {
        global = record (s.global) { game_logic = record gl { player_disconnected = c } ∷ gls };
      })

pub data Steps : System → System → Type 0 where
  done : (s : System) → Steps s s
  more : (s s' s'' : System) → Steps s s' → Step s' s'' → Steps s s''
