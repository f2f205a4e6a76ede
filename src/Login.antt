-- ===== src/Login.antt =====
-- control.go: the login manager (`handleClient` up to the behaviour loops), `autostart` and `Kick`.
-- The critical section under the global mutex is `admit`; `autostart` runs after it, without the
-- mutex.
pub mod Admission
pub mod Autostart
pub mod GameLogics
pub mod Joins
pub mod Players
use netorcai.Prelude.{
  ◌⊎◌, inl, inr, ℕ, ◌≤◌, ℤ, pos, minus_one, String, str_eq, List, [], ◌∷◌, ◌++◌, Bool, true, false,
  not, ◌&&◌, Option, none, some, leb_ℤ, eqb_ℤ, ◌==◌, leb, if◌then◌else◌, length,
}
use netorcai.Result.{Result, ok, err, Error}
use netorcai.Json.{Fields}
use netorcai.Messages.{MessageLogin, read_login_message}
use netorcai.Outcome.{Outcome, returns, blocks, panics, ◌>>=◌, or_panic, Chan, make_chan, send}
use netorcai.State.{
  GameState, not_running, running, finished, ClientState, unlogged, logged, kicked, ClientId,
  Client, PlayerOrVisuClient, GameLogicClient, GlobalState, Reason, invalid_first_message,
  game_has_been_started, players_full, special_players_full, visus_full, game_logic_present,
  login_ack_failed,
}

abbrev is_kicked : ClientState → Bool
is_kicked kicked = true
is_kicked _ = false

-- The new client, and the KICK messages that are written (an error of the write is dropped).
unfoldable pub kick : Client → Reason → Client × List Reason
kick client reason =
    if is_kicked client.state then (client, []) else (record client { state = kicked }, reason ∷ [])

abbrev pub is_not_running : GameState → Bool
is_not_running not_running = true
is_not_running _ = false

unfoldable pub are_all_expected_clients_connected : GlobalState → Bool
are_all_expected_clients_connected gs =
    eqb_ℤ (pos (length gs.players)) gs.nb_players_max
    && (eqb_ℤ (pos (length gs.special_players)) gs.nb_special_players_max
        && (eqb_ℤ (pos (length gs.visus)) gs.nb_visus_max && length gs.game_logic == 1))

-- `gs.GameLogic[0].start <- 1`
unfoldable pub send_start : List GameLogicClient → Outcome (List GameLogicClient)
send_start [] = panics
send_start (gl ∷ gls) = do start ← send 1 gl.start; returns (record gl { start = start } ∷ gls)

start_game : GlobalState → Outcome GlobalState
unfolding send_start
start_game gs = do
  gls ← send_start gs.game_logic
  returns (record gs { game_state = running; game_logic = gls })

unfoldable pub autostart : GlobalState → Outcome GlobalState
unfolding start_game
autostart gs =
    if gs.autostart && are_all_expected_clients_connected gs then start_game gs else returns gs

-- What the login manager decides about a client.
pub data Verdict : Type 0 where
  refused : Reason → Verdict
  accepted_player_or_visu : PlayerOrVisuClient → Verdict
  accepted_game_logic : GameLogicClient → Verdict

-- How `sendLoginACK` ends.
pub data Ack : Type 0 where
  ack_sent ack_failed : Ack

pv_client : Client → Bool → Bool → PlayerOrVisuClient
pv_client client is_player is_special = record {
  client = record client { state = logged };
  player_id = minus_one;
  is_player = is_player;
  is_special_player = is_special;
  player_info = none;
}

gl_client : Client → GameLogicClient
gl_client client = record {
  client = client.conn;
  player_action = make_chan 1;
  player_disconnected = make_chan 1;
  start = make_chan 1;
}

-- `if err != nil { Kick } else { append, accept }`
acked : Ack → GlobalState → GlobalState → Verdict → GlobalState × Verdict
acked ack_failed gs gs' v = (gs, refused login_ack_failed)
acked ack_sent gs gs' v = (gs', v)

admit_player : Ack → Client → GlobalState → GlobalState × Verdict
unfolding acked pv_client
admit_player ack client gs =
    if not (is_not_running gs.game_state)
    then (gs, refused game_has_been_started)
    else if leb_ℤ gs.nb_players_max (pos (length gs.players))
    then (gs, refused players_full)
    else acked ack gs (record gs { players = gs.players ++ (client.conn ∷ []) })
        (accepted_player_or_visu (pv_client client true false))

admit_special_player : Ack → Client → GlobalState → GlobalState × Verdict
unfolding acked pv_client
admit_special_player ack client gs =
    if not (is_not_running gs.game_state)
    then (gs, refused game_has_been_started)
    else if leb_ℤ gs.nb_special_players_max (pos (length gs.special_players))
    then (gs, refused special_players_full)
    else acked ack gs (record gs { special_players = gs.special_players ++ (client.conn ∷ []) })
        (accepted_player_or_visu (pv_client client true true))

admit_visu : Ack → Client → GlobalState → GlobalState × Verdict
unfolding acked pv_client
admit_visu ack client gs =
    if leb_ℤ gs.nb_visus_max (pos (length gs.visus))
    then (gs, refused visus_full)
    else acked ack gs (record gs { visus = gs.visus ++ (client.conn ∷ []) })
        (accepted_player_or_visu (pv_client client false false))

admit_game_logic : Ack → Client → GlobalState → GlobalState × Verdict
unfolding acked gl_client
admit_game_logic ack client gs =
    if not (is_not_running gs.game_state)
    then (gs, refused game_has_been_started)
    else if leb 1 (length gs.game_logic)
    then (gs, refused game_logic_present)
    else acked ack gs (record gs { game_logic = gs.game_logic ++ (gl_client client ∷ []) })
        (accepted_game_logic (gl_client client))

-- The `switch` on the role. `none` stands for a role without a case, which no valid LOGIN has.
unfoldable pub admit : Ack → Client → String → GlobalState → Option (GlobalState × Verdict)
unfolding admit_player admit_special_player admit_visu admit_game_logic
admit ack client role gs =
    if str_eq role "player"
    then some (admit_player ack client gs)
    else if str_eq role "special player"
    then some (admit_special_player ack client gs)
    else if str_eq role "visualization"
    then some (admit_visu ack client gs)
    else if str_eq role "game logic"
    then some (admit_game_logic ack client gs)
    else none

login_of : Result MessageLogin → MessageLogin ⊎ Reason
login_of (ok m) = inl m
login_of (err e) = inr (invalid_first_message e)

-- The first message of a client: a LOGIN, or the reason for a KICK.
unfoldable pub first_message : Result Fields → MessageLogin ⊎ Reason
unfolding login_of
first_message (ok content) = login_of (read_login_message content)
first_message (err e) = inr (invalid_first_message e)

-- How the login part of `handleClient` ends: the client is gone, with the KICKs that it was sent, or
-- it goes on to `autostart` and its behaviour loop.
pub data Entry : Type 0 where
  left : Client → List Reason → Entry
  entered_player_or_visu : PlayerOrVisuClient → Entry
  entered_game_logic : GameLogicClient → Entry

leave : Client × List Reason → Entry
leave (client, kicks) = left client kicks

entry : Client → Verdict → Entry
unfolding leave kick
entry client (refused reason) = leave (kick client reason)
entry client (accepted_player_or_visu pv) = entered_player_or_visu pv
entry client (accepted_game_logic gl) = entered_game_logic gl

enter : Client → GlobalState → Option (GlobalState × Verdict) → GlobalState × Entry
unfolding entry
enter client gs none = (gs, left client [])
enter client gs (some (gs', v)) = (gs', entry client v)

handle_login : Ack → Client → GlobalState → MessageLogin ⊎ Reason → GlobalState × Entry
unfolding leave kick enter
handle_login ack client gs (inl m) =
    let named = record client { nickname = m.nickname } in
    enter named gs (admit ack named m.role gs)
handle_login ack client gs (inr reason) = (gs, leave (kick client reason))

unfoldable pub handle_client : Ack → Client → Result Fields → GlobalState → GlobalState × Entry
unfolding handle_login
handle_client ack client message gs = handle_login ack client gs (first_message message)
