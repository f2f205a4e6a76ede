-- ===== src/Lobby/Order.antt =====
-- The order in which clients log in.

use netorcai.Prelude.{
  ℕ, ◌+◌, pos, ◌<ℤ◌, ◌≡◌, ap, ◌∙◌, List, [], ◌∷◌, ◌++◌, length, length-append, arith,
}
use netorcai.Result.{Result}
use netorcai.Json.{Fields}
use netorcai.State.{not_running, ClientId, Client, GlobalState}
use netorcai.Login.{ack_sent, handle_client}
use netorcai.Login.Players.{IsPlayerLogin, player_login}
use netorcai.Lobby.Unordered.{Bag, of_list, put, put_comm, of_list-append}
use netorcai.Lobby.{Lobby, lobby_of}

-- The lobby with two players more.
abbrev pub joined_by : ClientId → ClientId → GlobalState → Lobby
joined_by c d gs = record (lobby_of gs) {
  members = record ((lobby_of gs).members) { player = put c (put d (of_list gs.players)) };
}

-- While there is room for two players and no game runs: whichever of two logs in first, the lobby behind their
-- logins is the one before with both of them among the players, and nothing else changed.
pub handle_client_comm :
    (c d : Client) (mc md : Result Fields) (gs : GlobalState)
    → IsPlayerLogin mc
    → IsPlayerLogin md
    → gs.game_state ≡ not_running
    → pos (length gs.players + 1) <ℤ gs.nb_players_max
    → (lobby_of (handle_client ack_sent d md (handle_client ack_sent c mc gs).0).0
        ≡ joined_by c.conn d.conn gs)
      × (lobby_of (handle_client ack_sent c mc (handle_client ack_sent d md gs).0).0
          ≡ joined_by c.conn d.conn gs)
handle_client_comm c d mc md gs is_c is_d idle room =
    let after = λ (xs : List ℕ). record gs { players = gs.players ++ xs } in
    let both : (c d : ClientId)
        → of_list ((gs.players ++ (c ∷ [])) ++ (d ∷ [])) ≡ put d (put c (of_list gs.players)) =
      λ (c d : ClientId).
        of_list-append (gs.players ++ (c ∷ [])) d ∙ ap (put d) (of_list-append gs.players c) in
    let put_in = λ (b : Bag). record (lobby_of gs) {
      members = record ((lobby_of gs).members) { player = b };
    } in
    (
      rw
          (
            player_login c mc gs is_c idle (omega arith),
            player_login d md (after (c.conn ∷ [])) is_d idle
                (omega (arith, length-append gs.players (c.conn ∷ []))),
          )
          (ap put_in (both c.conn d.conn ∙ put_comm d.conn c.conn (of_list gs.players))),
      rw
          (
            player_login d md gs is_d idle (omega arith),
            player_login c mc (after (d.conn ∷ [])) is_c idle
                (omega (arith, length-append gs.players (d.conn ∷ []))),
          )
          (ap put_in (both d.conn c.conn)),
    )
