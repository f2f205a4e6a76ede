-- ===== src/Departure.antt =====
-- control_pv.go: `KickLoggedPlayerOrVisu`. The whole body up to `Kick` runs under the global mutex.
pub mod Removal
pub mod Effects
pub mod Told
pub mod Endings
pub mod Safety
use netorcai.Prelude.{
  ℕ, ℤ, List, [], ◌∷◌, Bool, true, false, ◌&&◌, Option, none, some, ◌==◌, if◌then◌else◌,
}
use netorcai.Outcome.{Outcome, returns, blocks, panics, ◌>>=◌, send}
use netorcai.Slices.{find_index, remove_at}
use netorcai.State.{
  GameState, running, ClientId, Client, PlayerOrVisuClient, PlayerInformation, Infos,
  GameLogicClient, GlobalState, Reason,
}
use netorcai.Login.{kick}

abbrev pub is_running : GameState → Bool
is_running running = true
is_running _ = false

-- `pvClient.playerInfo.IsConnected = false`, unless the pointer is nil.
mark_disconnected : Option ClientId → Infos → Infos
mark_disconnected none infos q = infos q
mark_disconnected (some p) infos q =
    if p == q then record (infos p) { is_connected = false } else infos q

-- `gs.GameLogic[0].playerDisconnected <- pvClient.playerID`
notify : ℤ → List GameLogicClient → Outcome (List GameLogicClient)
notify player_id [] = panics
notify player_id (gl ∷ gls) = do
  c ← send player_id gl.player_disconnected
  returns (record gl { player_disconnected = c } ∷ gls)

-- In a running game in fast mode only.
tell_game_logic : ℤ → GlobalState → Outcome GlobalState
unfolding notify
tell_game_logic player_id gs =
    if is_running gs.game_state && gs.fast
    then (do gls ← notify player_id gs.game_logic; returns (record gs { game_logic = gls }))
    else returns gs

cut : Option ℕ → List ClientId → Outcome (List ClientId)
cut none clients = returns clients
cut (some i) clients = remove_at i clients

-- The client is looked up in the list, and removed if it is there.
unfoldable pub remove : ClientId → List ClientId → Outcome (List ClientId)
unfolding cut
remove conn clients = cut (find_index (λ c. c == conn) clients) clients

depart_special_player : PlayerOrVisuClient → GlobalState → Outcome GlobalState
depart_special_player pv gs = do
  told ← tell_game_logic pv.player_id gs
  left ← remove pv.client.conn told.special_players
  returns (record told { special_players = left })

depart_player : PlayerOrVisuClient → GlobalState → Outcome GlobalState
depart_player pv gs = do
  told ← tell_game_logic pv.player_id gs
  left ← remove pv.client.conn told.players
  returns (record told { players = left })

depart_visu : PlayerOrVisuClient → GlobalState → Outcome GlobalState
depart_visu pv gs = do left ← remove pv.client.conn gs.visus; returns (record gs { visus = left })

unfoldable pub depart : PlayerOrVisuClient → GlobalState → Outcome GlobalState
unfolding depart_special_player depart_player depart_visu tell_game_logic
depart pv gs =
    if pv.is_player
    then (if pv.is_special_player then depart_special_player pv gs else depart_player pv gs)
    else depart_visu pv gs

-- What is left of the client, the KICK that it is sent, and the shared state.
pub record Departure : Type 0 where
  pub client : Client
  pub kicks : List Reason
  pub global : GlobalState
  pub infos : Infos

unfoldable pub kick_logged_player_or_visu :
    PlayerOrVisuClient → Reason → GlobalState → Infos → Outcome Departure
unfolding depart mark_disconnected kick
kick_logged_player_or_visu pv reason gs infos = do
  gs' ← depart pv gs
  let (client, kicks) = kick pv.client reason
  returns (record {
    client = client;
    kicks = kicks;
    global = gs';
    infos = if pv.is_player then mark_disconnected pv.player_info infos else infos;
  })
