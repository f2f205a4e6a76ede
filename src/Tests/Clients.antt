-- ===== src/Tests/Clients.antt =====
-- Logins, departures and the loop of a player.
use netorcai.Prelude.{
  ℕ, pos, ◌≡◌, refl, ◌↔◌, ◌⊎◌, inl, List, [], ◌∷◌, none, some, arith, true, false, if◌then◌else◌,
  ◌==◌,
}
use netorcai.Result.{ok}
use netorcai.Float64.{to_int}
use netorcai.Json.{lookup}
use netorcai.ReadUtil.{read_string, read_int, read_array}
use netorcai.Outcome.{returns, blocks}
use netorcai.Slices.{find_index, remove_at, swap_last}
use netorcai.State.{
  running, PlayerOrVisuClient, GlobalState, game_is_finished, kicked, thinking, netorcai_abort,
}
use netorcai.Login.{
  admit, ack_sent, handle_client, autostart, are_all_expected_clients_connected, send_start, kick,
}
use netorcai.Login.Admission.{
  is_accepted, HasRoom, WithinLimits, admit-accepts_iff, handle_client-WithinLimits,
}
use netorcai.Login.Autostart.{IsComplete, ordered, autostart_twice}
use netorcai.Departure.{Departure, kick_logged_player_or_visu, depart, remove}
use netorcai.Departure.Effects.{IsDeparture, kick_logged_player_or_visu-IsDeparture}
use netorcai.Mutex
use netorcai.Mutex.{Leaver, System, Steps, done, more, enters, wants, holds}
use netorcai.Mutex.Deadlock.{IsOver, IsDeadlocked, two_leave_stuck}
use netorcai.Mutex.Invariant.{Steps-progress}
use netorcai.PlayerOrVisu.{
  Handler, Round, Event, game_starts, new_turn, incoming, start_handler, step, run, loops,
  sent_turn, forwarded, sent_game_starts,
}
use netorcai.PlayerOrVisu.Invariant.{StartsOnce}
use netorcai.PlayerOrVisu.Rounds.{turns, arrivals}
use netorcai.PlayerOrVisu.Turns.{run-turns-Sublist}
use netorcai.PlayerOrVisu.Answers.{Alternates, run-Alternates}
use mathlib.Core.List.{Sublistᴰ}
use netorcai.Messages.{read_turn_ack_message, check_message_type}
use netorcai.Tests.{
  bot, player, game_logic, lobby, full_lobby, infos, login, turn_ack, turn, starts, action,
}

admit-accepts_iff_example :
    (is_accepted (admit ack_sent bot "player" lobby) ≡ true)
    ↔ ((ack_sent ≡ ack_sent) × HasRoom "player" lobby)
admit-accepts_iff_example = admit-accepts_iff ack_sent bot "player" lobby (inl refl)

lobby-WithinLimits : WithinLimits lobby
lobby-WithinLimits = record {
  players_within = omega arith;
  special_players_within = omega arith;
  visus_within = omega arith;
  one_game_logic = omega arith;
}

handle_client-WithinLimits_example : WithinLimits (handle_client ack_sent bot (ok login) lobby).0
handle_client-WithinLimits_example =
    handle_client-WithinLimits ack_sent bot (ok login) lobby lobby-WithinLimits

full_lobby-IsComplete : IsComplete full_lobby game_logic
full_lobby-IsComplete = record {
  players_full = refl;
  special_players_full = refl;
  visus_full = refl;
  game_logic_only = refl;
}

autostart_twice_example : autostart (ordered full_lobby game_logic) ≡ blocks
unfolding autostart are_all_expected_clients_connected send_start
autostart_twice_example =
    autostart_twice full_lobby (ordered full_lobby game_logic) game_logic refl full_lobby-IsComplete
      refl refl

abbrev two_players : List ℕ
two_players = 7 ∷ 8 ∷ []

abbrev departed : Departure
departed = record {
  client = record bot { state = kicked };
  kicks = game_is_finished ∷ [];
  global = record lobby { players = 8 ∷ [] };
  infos = λ q. if 7 == q then record (infos 7) { is_connected = false } else infos q;
}

kick_logged_player_or_visu-IsDeparture_example :
    IsDeparture player game_is_finished lobby infos departed
unfolding kick_logged_player_or_visu depart remove remove_at swap_last find_index kick
kick_logged_player_or_visu-IsDeparture_example =
    kick_logged_player_or_visu-IsDeparture player game_is_finished lobby infos departed refl

abbrev running_fast : GlobalState
running_fast = record lobby { game_state = running }

abbrev other_player : PlayerOrVisuClient
other_player = record player {
  client = record bot { conn = 8 };
  player_id = pos 1;
  player_info = some 8;
}

abbrev leavers : List Leaver
leavers =
    record { pv = player; reason = game_is_finished }
    ∷ record { pv = other_player; reason = netorcai_abort }
    ∷ []

-- Both leave, and the game logic has no copy yet.
abbrev beginning : System
beginning = record {
  global = running_fast;
  infos = infos;
  leaving = leavers;
  gone = 7 ∷ 8 ∷ [];
  inside = none;
  phase = wants;
}

two_leave_stuck_example :
    (s : System) × Steps beginning s
    × (s.inside ≡ some (record { pv = other_player; reason = netorcai_abort }))
    × ((s' : System) → ¬ Mutex.Step s s')
two_leave_stuck_example =
    two_leave_stuck (record { pv = player; reason = game_is_finished })
      (record { pv = other_player; reason = netorcai_abort }) [] (7 ∷ 8 ∷ []) running_fast infos
      game_logic [] refl refl refl refl refl refl

-- The first player has the mutex.
abbrev first_inside : System
first_inside = record beginning {
  inside = some (record { pv = player; reason = game_is_finished });
  leaving = record { pv = other_player; reason = netorcai_abort } ∷ [];
}

Steps-progress_example :
    (first_inside.phase ≡ holds → first_inside.inside ≡ none)
    × (((s' : System) × Mutex.Step first_inside s')
        ⊎ (IsOver first_inside
            ⊎ (IsDeadlocked first_inside × ((s' : System) → ¬ Mutex.Step first_inside s'))))
Steps-progress_example =
    Steps-progress beginning first_inside (λ _. refl) (omega arith, tt) refl refl
      (more beginning beginning first_inside (done beginning) (
        enters beginning [] (record { pv = other_player; reason = netorcai_abort } ∷ [])
          (record { pv = player; reason = game_is_finished }) refl (λ h. cc) refl))

-- A player that has the turn 0 and the turn 1 behind it in the buffer.
abbrev thinks : Handler
thinks = record {
  pv = record player { client = record bot { state = thinking } };
  turn_buffer = turn 1 ∷ [];
  last_turn_number_sent = pos 0;
  game_logic = some 1;
}

-- The game starts, two turns come, and the first one is answered.
abbrev events : List Event
events =
    game_starts starts none
    ∷ new_turn (turn 0) none
    ∷ new_turn (turn 1) none
    ∷ incoming (ok turn_ack) none
    ∷ []

abbrev answered : Handler
answered = record {
  pv = record player { client = record bot { state = thinking } };
  turn_buffer = [];
  last_turn_number_sent = pos 1;
  game_logic = some 1;
}

abbrev played : Round
played = record {
  outputs =
      sent_game_starts starts
      ∷ sent_turn (turn 0)
      ∷ forwarded (action 0 0)
      ∷ sent_turn (turn 1)
      ∷ [];
  next = loops answered;
}

run-events : run (game_logic ∷ []) (start_handler player) events ≡ returns played
unfolding run step start_handler read_turn_ack_message read_string read_int read_array lookup
    check_message_type to_int
run-events = refl

events-StartsOnce : StartsOnce false events
events-StartsOnce = (λ e. refl, (λ e. cc, (λ e. cc, (λ e. cc, tt))))

run-turns-Sublist_example : Sublistᴰ (turns played.outputs) (arrivals events)
run-turns-Sublist_example =
    run-turns-Sublist (game_logic ∷ []) player events played refl events-StartsOnce run-events

run-Alternates_example : Alternates none played.outputs
run-Alternates_example =
    run-Alternates (game_logic ∷ []) player events played refl refl events-StartsOnce run-events
