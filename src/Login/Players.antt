-- ===== src/Login/Players.antt =====
-- The login of a player that finds room.
use netorcai.Prelude.{pos, ◌<ℤ◌, ◌≡◌, inl, [], ◌∷◌, ◌++◌, length, arith, eq_iff, not, leb_ℤ, false}
use netorcai.Result.{Result}
use netorcai.Json.{Fields}
use netorcai.Messages.{MessageLogin}
use netorcai.State.{not_running, Client, GlobalState}
use netorcai.Login.{
  ack_sent, admit, admit_player, enter, handle_login, handle_client, first_message, acked,
  is_not_running,
}

-- The message is the LOGIN of a player.
abbrev pub IsPlayerLogin : Result Fields → Type 0
IsPlayerLogin message = (m : MessageLogin) × (first_message message ≡ inl m) × (m.role ≡ "player")

admit_player_room :
    (client : Client) (gs : GlobalState)
    → gs.game_state ≡ not_running
    → pos (length gs.players) <ℤ gs.nb_players_max
    → (admit_player ack_sent client gs).0 ≡ record gs { players = gs.players ++ (client.conn ∷ []) }
unfolding admit_player acked
admit_player_room client gs idle room =
    let open_ : not (is_not_running gs.game_state) ≡ false = rw idle in
    let free : leb_ℤ gs.nb_players_max (pos (length gs.players)) ≡ false = ground arith in
    rw (open_, free)

-- A player that finds room is appended.
pub player_login :
    (client : Client) (message : Result Fields) (gs : GlobalState)
    → IsPlayerLogin message
    → gs.game_state ≡ not_running
    → pos (length gs.players) <ℤ gs.nb_players_max
    → (handle_client ack_sent client message gs).0
      ≡ record gs { players = gs.players ++ (client.conn ∷ []) }
unfolding handle_client handle_login enter admit
player_login client message gs (m, first, role) idle room =
    rw (first, (eq_iff m.role "player").1 role)
      (admit_player_room (record client { nickname = m.nickname }) gs idle room)
