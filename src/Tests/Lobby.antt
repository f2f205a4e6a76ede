-- ===== src/Tests/Lobby.antt =====
-- Who comes in and leaves, from the command line on.
use netorcai.Prelude.{ℕ, pos, ◌≡◌, refl, ◌⊎◌, Option, none, some, [], ◌∷◌, arith, false, true}
use netorcai.Result.{ok}
use netorcai.Json.{Fields, field, text}
use netorcai.Outcome.{returns, make_chan}
use netorcai.State.{Client, unlogged, GlobalState}
use netorcai.Messages.{
  read_login_message, check_message_type, is_nickname, no_space, is_role, check_version,
}
use netorcai.Version.{atoi, decimal, match_version}
use netorcai.Login.{ack_sent, handle_client, first_message}
use netorcai.Login.Players.{IsPlayerLogin}
use netorcai.Lobby.{History, lobby_of}
use netorcai.Lobby.Refinement.{Reach-History}
use netorcai.Lobby.Order.{joined_by, handle_client_comm}
use netorcai.Prompt.Bounds.{WithinBounds}
use netorcai.Server.{Reach, begins, goes_on, login}
use netorcai.Server.Bounds.{Reach-WithinBounds}
use netorcai.Main.{initialize_global_state, read_settings}
use netorcai.Float64.{lt}
use netorcai.Main.Launch.{
  Program, runs, stops, launch, IsProgram, Refuses, info, setup_logging, launch_lem,
}
use netorcai.ReadUtil.{read_int_in_string, read_float_in_string, read_string}
use netorcai.Json.{lookup}
use netorcai.Network.Accept.{
  Server, run_server, failing_after, new_client, run_server-failing_after,
}
use netorcai.Tests.{bot, login as login_message}
use netorcai.Server.Progress.{Ends, Reach-Ends}
use netorcai.Tests.Server.{strconv, four, arguments, begins_four}

abbrev entered : GlobalState
entered = (handle_client ack_sent bot (ok login_message) four).0

entered-Reach : Reach strconv entered
entered-Reach =
    goes_on four entered (begins arguments four begins_four)
      (login ack_sent bot (ok login_message) four)

Reach-History_example : History (lobby_of entered)
Reach-History_example = Reach-History strconv entered entered-Reach

Reach-Ends_example : Ends strconv entered
Reach-Ends_example = Reach-Ends strconv entered entered-Reach

Reach-WithinBounds_example : WithinBounds entered
Reach-WithinBounds_example = Reach-WithinBounds strconv entered entered-Reach

login-IsPlayerLogin : IsPlayerLogin (ok login_message)
unfolding first_message read_login_message check_message_type read_string lookup atoi is_nickname
    no_space is_role check_version match_version decimal
login-IsPlayerLogin =
    (record { nickname = "bot"; role = "player"; metaprotocol_version = "2.0.1" }, refl, refl)

abbrev second : Client
second = record { conn = 8; nickname = ""; state = unlogged }

handle_client_comm_example :
    (lobby_of
        (handle_client ack_sent second
          (ok login_message)
          (handle_client ack_sent bot (ok login_message) four).0).0
      ≡ joined_by 7 8 four)
    × (lobby_of
          (handle_client ack_sent bot
            (ok login_message)
            (handle_client ack_sent second (ok login_message) four).0).0
        ≡ joined_by 7 8 four)
handle_client_comm_example =
    handle_client_comm bot second (ok login_message) (ok login_message) four login-IsPlayerLogin
      login-IsPlayerLogin refl (omega arith)

abbrev with_port : Fields
with_port = field "--port" (text "4") arguments

abbrev program : Program
program = record {
  logging = record { json = false; level = info };
  port = pos 4;
  global = four;
  interactive = true;
}

launch_lem_example :
    ((p : Program) × (runs program ≡ runs p)
      × (◌≡◌ {A = Option ℕ} none none)
      × IsProgram strconv with_port p)
    ⊎ ((code : ℕ) × (runs program ≡ stops code)
        × ((none ≡ some code) ⊎ ((code ≡ 1) × Refuses strconv with_port)))
unfolding launch initialize_global_state read_settings read_int_in_string read_float_in_string
    read_string lookup lt setup_logging
launch_lem_example = launch_lem strconv none true with_port (runs program) refl

abbrev listening : Server
listening = record { spawned = []; wait_group = 1; exit = make_chan 1 }

run_server-failing_after_example :
    run_server true (failing_after (7 ∷ 8 ∷ []) []) listening
    ≡ returns (record {
      spawned = new_client 7 ∷ new_client 8 ∷ [];
      wait_group = 2;
      exit = record { capacity = 1; queue = 1 ∷ [] };
    })
run_server-failing_after_example =
    run_server-failing_after (7 ∷ 8 ∷ []) [] listening refl (omega arith)
