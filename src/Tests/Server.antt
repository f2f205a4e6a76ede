-- ===== src/Tests/Server.antt =====
-- The program from its command line on.
use netorcai.Prelude.{pos, ◌≡◌, refl, [], true, false, some}
use netorcai.Result.{ok}
use netorcai.Float64.{of_int, lt}
use netorcai.Json.{Fields, field, text, bool, end, lookup}
use netorcai.Strconv.{Strconv}
use netorcai.ReadUtil.{read_int_in_string, read_float_in_string, read_string}
use netorcai.Outcome.{returns, make_chan}
use netorcai.State.{GlobalState, not_running}
use netorcai.Prompt.{Shell}
use netorcai.Main.{initialize_global_state, read_settings}
use netorcai.Server.{begins}
use netorcai.Server.Invariant.{OneGameLogic, Reach-OneGameLogic}
use netorcai.Tests.{lobby, bot}
use netorcai.State.{Client, kicked}
use netorcai.Cleanup.{Terminations, cleanup, recipients}
use netorcai.Cleanup.Orders.{Sent, cleanup-Sent}

-- Parsers that know one number.
abbrev pub strconv : Strconv
strconv = record {
  parse_int = λ s bits. some (pos 4);
  parse_float = λ s bits. some (of_int (pos 100));
}

abbrev pub arguments : Fields
arguments = field "--nb-players-max" (text "4") (
    field "--nb-splayers-max" (text "4") (
      field "--nb-visus-max" (text "4") (
        field "--nb-turns-max" (text "4") (
          field "--delay-first-turn" (text "100") (
            field "--delay-turns" (text "100")
              (field "--autostart" (bool true) (field "--fast" (bool false) end)))))))

abbrev pub four : GlobalState
four = record {
  game_state = not_running;
  game_logic = [];
  players = [];
  special_players = [];
  visus = [];
  nb_players_max = pos 4;
  nb_special_players_max = pos 4;
  nb_visus_max = pos 4;
  nb_turns_max = pos 4;
  autostart = true;
  fast = false;
  milliseconds_before_first_turn = of_int (pos 100);
  milliseconds_between_turns = of_int (pos 100);
}

pub begins_four : initialize_global_state strconv arguments ≡ returns (ok four)
unfolding initialize_global_state read_settings read_int_in_string read_float_in_string read_string
    lookup lt
begins_four = refl

Reach-OneGameLogic_example : OneGameLogic four
Reach-OneGameLogic_example = Reach-OneGameLogic strconv four (begins arguments four begins_four)

abbrev pub shell : Shell
shell = record { global = four; exit = make_chan 1; printed = [] }

abbrev shell_after : Shell
shell_after = record shell { global = record four { nb_players_max = pos 4 } }

abbrev no_orders : Terminations
no_orders c = make_chan 1

cleanup-Sent_example :
    (t' : Terminations) × (cleanup lobby no_orders ≡ returns t')
    × Sent (recipients lobby) no_orders t'
unfolding recipients
cleanup-Sent_example =
    cleanup-Sent lobby no_orders ((refl, (refl, tt)), ((refl, tt), (tt, tt)))
      (refl, (refl, (refl, tt)))

abbrev gone : Client
gone = record bot { state = kicked }
