-- ===== src/Login/GameLogics.antt =====
-- What a login does to the list of game logics.
use netorcai.Prelude.{◌≤◌, ◌⊎◌, inl, inr, String, [], ◌∷◌, length, length-append, arith}
use netorcai.Result.{Result}
use netorcai.Json.{Fields}
use netorcai.Messages.{MessageLogin}
use netorcai.State.{Client, GlobalState, Reason}
use netorcai.Login.{Ack, admit, enter, handle_login, handle_client, first_message, gl_client}

enter-game_logic :
    (ack : Ack) (client : Client) (role : String) (gs : GlobalState)
    → length gs.game_logic ≤ 1
    → length (enter client gs (admit ack client role gs)).0.game_logic ≤ 1
unfolding admit enter
enter-game_logic ack client role gs h =
    ground (arith, length-append gs.game_logic (gl_client client ∷ []))

-- A second game logic never gets in.
pub handle_client-game_logic :
    (ack : Ack) (client : Client) (message : Result Fields) (gs : GlobalState)
    → length gs.game_logic ≤ 1
    → length (handle_client ack client message gs).0.game_logic ≤ 1
unfolding handle_client
handle_client-game_logic ack client message gs h = go (first_message message)
  where
    go :
        (login : MessageLogin ⊎ Reason) → length (handle_login ack client gs login).0.game_logic ≤ 1
    go (inr reason) = h
    go (inl m) = enter-game_logic ack (record client { nickname = m.nickname }) m.role gs h
