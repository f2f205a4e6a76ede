-- ===== src/Lockstep.antt =====
-- A game in fast mode around one player: `gameLogicGameControlFast` of control_gl.go, the player's `handlePlayerOrVisu`
-- of control_pv.go, and the two channels between them, `newTurn` from the one to the other and `playerAction` back. The
-- other players, the messages of the game logic and those of the player are arbitrary. A write to the player does
-- not fail here: a failure ends the loop of the player, as leaving does.
pub mod Channels
pub mod Invariant
use netorcai.Prelude.{ℤ, ◌≡◌, ◌≢◌, List, [], ◌∷◌, ◌++◌, none, ◌==◌, if◌then◌else◌}
use netorcai.Result.{Result}
use netorcai.Json.{Fields}
use netorcai.Outcome.{returns}
use netorcai.Outgoing.{MessageTurn}
use netorcai.State.{ClientId, MessageDoTurnPlayerAction, GameLogicClient}
use netorcai.GameControl.{
  Game, Output, do_init, game_starts, do_turn, turns, game_ends, kicks, exits, arms_timer,
}
use netorcai.GameControl.Fast
use netorcai.GameControl.Fast.{Fast}
use netorcai.GameControl.Loop
use netorcai.PlayerOrVisu
use netorcai.PlayerOrVisu.{Handler, sent_game_starts, sent_game_ends, sent_turn, forwarded}

pub record System : Type 0 where
  pub loop : Fast
  pub handler : Handler
  pub new_turn : List MessageTurn
  pub player_action : List MessageDoTurnPlayerAction

-- What is sent to one client.
pub turns_to : ClientId → List (ClientId × MessageTurn) → List MessageTurn
turns_to c [] = []
turns_to c ((d, m) ∷ ms) = let rest = turns_to c ms in if d == c then m ∷ rest else rest

pub outputs_to : ClientId → List Output → List MessageTurn
unfolding turns_to
outputs_to c [] = []
outputs_to c (turns ms ∷ os) = turns_to c ms ++ outputs_to c os
outputs_to c (do_init m ∷ os) = outputs_to c os
outputs_to c (game_starts ms ∷ os) = outputs_to c os
outputs_to c (do_turn actions ∷ os) = outputs_to c os
outputs_to c (game_ends ms ∷ os) = outputs_to c os
outputs_to c (kicks reason ∷ os) = outputs_to c os
outputs_to c (exits code ∷ os) = outputs_to c os
outputs_to c (arms_timer ∷ os) = outputs_to c os

-- What the loop of a player sends to the game logic.
pub actions_of : List PlayerOrVisu.Output → List MessageDoTurnPlayerAction
actions_of [] = []
actions_of (forwarded action ∷ os) = action ∷ actions_of os
actions_of (sent_game_starts m ∷ os) = actions_of os
actions_of (sent_game_ends m ∷ os) = actions_of os
actions_of (sent_turn m ∷ os) = actions_of os

-- `id` is the identifier of the player and `c` its client.
module _ (game : Game) (gls : List GameLogicClient) (c : ClientId) (id : ℤ) where
  pub data Step : System → System → Type 0 where
    acknowledged :
        (message : Result Fields) (s : System) (r : Loop.Round Fast) (loop : Fast)
        → Fast.step game (Fast.incoming message) s.loop ≡ returns r
        → r.next ≡ Loop.loops loop
        → Step s (record s { loop = loop; new_turn = s.new_turn ++ outputs_to c r.outputs })
    other_plays :
        (action : MessageDoTurnPlayerAction) (s : System) (r : Loop.Round Fast) (loop : Fast)
        → action.player_id ≢ id
        → Fast.step game (Fast.player_action action) s.loop ≡ returns r
        → r.next ≡ Loop.loops loop
        → Step s (record s { loop = loop })
    other_leaves :
        (other : ℤ) (s : System) (r : Loop.Round Fast) (loop : Fast)
        → other ≢ id
        → Fast.step game (Fast.player_disconnected other) s.loop ≡ returns r
        → r.next ≡ Loop.loops loop
        → Step s (record s { loop = loop })
    plays :
        (action : MessageDoTurnPlayerAction) (rest : List MessageDoTurnPlayerAction) (s : System)
        (r : Loop.Round Fast) (loop : Fast)
        → s.player_action ≡ action ∷ rest
        → Fast.step game (Fast.player_action action) s.loop ≡ returns r
        → r.next ≡ Loop.loops loop
        → Step s (record s { loop = loop; player_action = rest })
    takes_turn :
        (turn : MessageTurn) (rest : List MessageTurn) (s : System) (r : PlayerOrVisu.Round)
        (handler : Handler)
        → s.new_turn ≡ turn ∷ rest
        → PlayerOrVisu.step gls (PlayerOrVisu.new_turn turn none) s.handler ≡ returns r
        → r.next ≡ PlayerOrVisu.loops handler
        → Step s (record s {
          handler = handler;
          new_turn = rest;
          player_action = s.player_action ++ actions_of r.outputs;
        })
    answers :
        (message : Result Fields) (s : System) (r : PlayerOrVisu.Round) (handler : Handler)
        → PlayerOrVisu.step gls (PlayerOrVisu.incoming message none) s.handler ≡ returns r
        → r.next ≡ PlayerOrVisu.loops handler
        → Step s (record s {
          handler = handler;
          player_action = s.player_action ++ actions_of r.outputs;
        })

  pub data Steps : System → System → Type 0 where
    done : (s : System) → Steps s s
    more : (s s' s'' : System) → Steps s s' → Step s' s'' → Steps s s''
