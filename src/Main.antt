-- ===== src/Main.antt =====
-- cmd/netorcai/main.go: the shared state from the command line, as docopt has parsed it, and the exit
-- code of the program.
pub mod Settings
pub mod Launch
use netorcai.Prelude.{
  ℕ, ℤ, pos, String, List, [], ◌∷◌, Bool, true, false, Option, none, some, ◌==◌, if◌then◌else◌, not,
}
use netorcai.Result.{Result, ok, err, Error, ◌>>=◌}
use netorcai.Float64.{Float64, of_int}
use netorcai.Json.{Value, bool, Fields, lookup}
use netorcai.Strconv.{Strconv}
use netorcai.ReadUtil.{read_int_in_string, read_float_in_string}
use netorcai.Outcome.{Outcome, returns, blocks, panics}
use netorcai.State.{GlobalState, not_running}

-- `value.(bool)` panics on anything else.
as_bool : Option Value → Outcome Bool
as_bool (some (bool b)) = returns b
as_bool _ = panics

-- The channel that the main goroutine hears of first.
pub data Exit : Type 0 where
  server_exit guard_exit game_logic_exit shell_exit : ℕ → Exit

-- The exit code, and whether `Cleanup` runs before it.
pub record End : Type 0 where
  pub cleans_up : Bool
  pub code : ℕ

unfoldable pub on_exit : Exit → End
on_exit (server_exit code) = record { cleans_up = false; code = code }
on_exit (guard_exit code) = record { cleans_up = true; code = code }
on_exit (game_logic_exit code) = record { cleans_up = true; code = code }
on_exit (shell_exit code) = record { cleans_up = true; code = code }

-- `gs` with the two flags, unless reading one of them panics.
flagged : GlobalState → Outcome Bool → Outcome Bool → Outcome (Result GlobalState)
flagged gs (returns autostart) (returns fast) =
    returns (ok (record gs { autostart = autostart; fast = fast }))
flagged gs (returns autostart) _ = panics
flagged gs _ _ = panics

with_flags : Fields → Result GlobalState → Outcome (Result GlobalState)
unfolding as_bool lookup flagged
with_flags arguments (err e) = returns (err e)
with_flags arguments (ok gs) =
    flagged gs (as_bool (lookup arguments "--autostart")) (as_bool (lookup arguments "--fast"))

module _ (strconv : Strconv) where
  -- The numbers, with no flags yet.
  unfoldable pub read_settings : Fields → Result GlobalState
  read_settings arguments = do
    nb_players_max ← read_int_in_string strconv arguments "--nb-players-max" 64 (pos 0) (pos 1024)
    nb_special_players_max ←
        read_int_in_string strconv arguments "--nb-splayers-max" 64 (pos 0) (pos 1024)
    nb_visus_max ← read_int_in_string strconv arguments "--nb-visus-max" 64 (pos 0) (pos 1024)
    nb_turns_max ← read_int_in_string strconv arguments "--nb-turns-max" 64 (pos 1) (pos 65535)
    before_first_turn ←
        read_float_in_string strconv arguments "--delay-first-turn" 64 (of_int (pos 50))
          (of_int (pos 10000))
    between_turns ←
        read_float_in_string strconv arguments "--delay-turns" 64 (of_int (pos 50))
          (of_int (pos 10000))
    ok (record {
      game_state = not_running;
      game_logic = [];
      players = [];
      special_players = [];
      visus = [];
      nb_players_max = nb_players_max;
      nb_special_players_max = nb_special_players_max;
      nb_visus_max = nb_visus_max;
      nb_turns_max = nb_turns_max;
      autostart = false;
      fast = false;
      milliseconds_before_first_turn = before_first_turn;
      milliseconds_between_turns = between_turns;
    })

  unfoldable pub initialize_global_state : Fields → Outcome (Result GlobalState)
  unfolding read_settings with_flags
  initialize_global_state arguments = with_flags arguments (read_settings arguments)
