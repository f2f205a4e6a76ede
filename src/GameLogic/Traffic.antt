-- ===== src/GameLogic/Traffic.antt =====
-- control_gl.go and control_pv.go: what goes through the channels of the game logic that the shared state
-- holds, without the global mutex. Its goroutine receives, in the `select`s on `start`, `playerAction` and
-- `playerDisconnected`; the goroutine of a player hands over its actions.
use netorcai.Prelude.{ℕ, ℤ, ◌≡◌, some}
use netorcai.Outcome.{Chan, send, receive, returns}
use netorcai.State.{MessageDoTurnPlayerAction, GameLogicClient}

pub data Traffic (gl : GameLogicClient) : GameLogicClient → Type 0 where
  takes_start :
      (order : ℕ) (c : Chan ℕ)
      → receive gl.start ≡ some (order, c)
      → Traffic gl (record gl { start = c })
  takes_action :
      (action : MessageDoTurnPlayerAction) (c : Chan MessageDoTurnPlayerAction)
      → receive gl.player_action ≡ some (action, c)
      → Traffic gl (record gl { player_action = c })
  takes_disconnection :
      (player_id : ℤ) (c : Chan ℤ)
      → receive gl.player_disconnected ≡ some (player_id, c)
      → Traffic gl (record gl { player_disconnected = c })
  hands_over :
      (action : MessageDoTurnPlayerAction) (c : Chan MessageDoTurnPlayerAction)
      → send action gl.player_action ≡ returns c
      → Traffic gl (record gl { player_action = c })
