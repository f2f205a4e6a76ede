-- ===== src/Cleanup.antt =====
-- control.go: `Cleanup`, which orders every client to terminate, and the loops in which a client waits
-- for that order at the end of a game (`waitPlayerOrVisuFinition` and `waitGameLogicFinition`). Every
-- client has a channel `canTerminate` of capacity 1.
pub mod Orders
pub mod Waits
use netorcai.Prelude.{ℕ, ℤ, List, [], ◌∷◌, ◌++◌, map, ◌==◌, if◌then◌else◌, Option, none, some}
use netorcai.Outcome.{Outcome, returns, ◌>>=◌, Chan, send}
use netorcai.Result.{Result}
use netorcai.Json.{Fields}
use netorcai.State.{
  MessageDoTurnPlayerAction, ClientId, Client, GlobalState, Reason, netorcai_abort,
}
use netorcai.Login.{kick}

-- The channels `canTerminate`.
abbrev pub Terminations : Type 0
Terminations = ClientId → Chan Reason

-- `nonGlClients`, and then the game logics.
unfoldable pub recipients : GlobalState → List ClientId
recipients gs =
    gs.players ++ (gs.special_players ++ (gs.visus ++ map (λ gl. gl.client) gs.game_logic))

-- One goroutine for each client sends the order; `Cleanup` waits for all of them.
unfoldable pub send_orders : List ClientId → Terminations → Outcome Terminations
send_orders [] t = returns t
send_orders (c ∷ cs) t = do
  order ← send netorcai_abort (t c)
  send_orders cs (λ q. if c == q then order else t q)

unfoldable pub cleanup : GlobalState → Terminations → Outcome Terminations
unfolding recipients send_orders
cleanup gs t = send_orders (recipients gs) t

-- What a waiting client may receive: the order, or something that it drops.
pub data Received : Type 0 where
  can_terminate : Reason → Received
  dropped : Received

-- The client at the end of the loop and the KICKs that it is sent; `none` while it still waits.
unfoldable pub wait_finition : Client → List Received → Option (Client × List Reason)
unfolding kick
wait_finition client [] = none
wait_finition client (can_terminate reason ∷ rs) = some (kick client reason)
wait_finition client (dropped ∷ rs) = wait_finition client rs

-- What a game logic that waits may receive. It takes what players hand over and their disconnections, so
-- that they do not wait for it.
pub data LastReceived : Type 0 where
  ordered : Reason → LastReceived
  player_action : MessageDoTurnPlayerAction → LastReceived
  player_disconnected : ℤ → LastReceived
  incoming : Result Fields → LastReceived

unfoldable pub wait_game_logic_finition : Client → List LastReceived → Option (Client × List Reason)
unfolding kick
wait_game_logic_finition client [] = none
wait_game_logic_finition client (ordered reason ∷ rs) = some (kick client reason)
wait_game_logic_finition client (player_action action ∷ rs) = wait_game_logic_finition client rs
wait_game_logic_finition client (player_disconnected id ∷ rs) = wait_game_logic_finition client rs
wait_game_logic_finition client (incoming message ∷ rs) = wait_game_logic_finition client rs
