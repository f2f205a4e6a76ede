-- ===== src/Prompt.antt =====
-- prompt.go: `executor`, on a line that `Prompt/Lines.antt` has taken apart. A printed line is a
-- value. The fields are written without the global mutex, which `start` alone takes.
pub mod Lines
pub mod Loop
pub mod Completer
pub mod Effects
pub mod Starts
pub mod Bounds
use netorcai.Prelude.{
  ℕ, ℤ, pos, leb_ℤ, String, str_eq, codes, List, [], ◌∷◌, ◌++◌, Bool, true, false, ◌&&◌, ◌||◌,
  Option, none, some, length, ◌==◌, if◌then◌else◌,
}
use netorcai.Float64
use netorcai.Float64.{Float64, of_int}
use netorcai.Strconv.{Strconv}
use netorcai.Outcome.{Outcome, returns, ◌>>=◌, Chan, send}
use netorcai.State.{GlobalState, running}
use netorcai.Login.{is_not_running, send_start}
use netorcai.Prompt.Lines.{Line, start, quit, print, set, malformed, ignored, parse_line}

-- The texts that are printed: a variable and its value, or why a command is refused.
pub data Printed : Type 0 where
  int_value : String → ℤ → Printed
  float_value : String → Float64 → Printed
  no_game_logic already_started bad_variable bad_value not_in_range expected_syntax : Printed

pub record Shell : Type 0 where
  pub global : GlobalState
  pub exit : Chan ℕ
  pub printed : List Printed

pub string_in_slice : String → List String → Bool
string_in_slice s [] = false
string_in_slice s (v ∷ vs) = str_eq v s || string_in_slice s vs

abbrev pub accepted_set_variables : List String
accepted_set_variables =
    "nb-turns-max" ∷ "nb-players-max" ∷ "nb-splayers-max" ∷ "nb-visus-max" ∷ "delay-first-turn"
    ∷ "delay-turns" ∷ []

-- A command that prints one text and changes nothing else.
says : Printed → Shell → Shell
says p s = record s { printed = p ∷ [] }

execute_start : Shell → Outcome Shell
unfolding says
execute_start s =
    if is_not_running s.global.game_state
    then (if length s.global.game_logic == 1
        then (do
          gls ← send_start s.global.game_logic
          returns (record s {
            global = record (s.global) { game_state = running; game_logic = gls };
            printed = [];
          }))
        else returns (says no_game_logic s))
    else returns (says already_started s)

-- `globalShellExit <- 0`
execute_quit : Shell → Outcome Shell
execute_quit s = do exit ← send 0 s.exit; returns (record s { exit = exit; printed = [] })

all_values : GlobalState → List Printed
all_values gs =
    int_value "nb-turns-max" gs.nb_turns_max
    ∷ int_value "nb-players-max" gs.nb_players_max
    ∷ int_value "nb-splayers-max" gs.nb_special_players_max
    ∷ int_value "nb-visus-max" gs.nb_visus_max
    ∷ float_value "delay-first-turn" gs.milliseconds_before_first_turn
    ∷ float_value "delay-turns" gs.milliseconds_between_turns
    ∷ []

-- The `switch` on a variable that is accepted.
chosen_value : String → GlobalState → List Printed
unfolding all_values
chosen_value v gs =
    if str_eq v "nb-turns-max"
    then int_value v gs.nb_turns_max ∷ []
    else if str_eq v "nb-players-max"
    then int_value v gs.nb_players_max ∷ []
    else if str_eq v "nb-splayers-max"
    then int_value v gs.nb_special_players_max ∷ []
    else if str_eq v "nb-visus-max"
    then int_value v gs.nb_visus_max ∷ []
    else if str_eq v "delay-first-turn"
    then float_value v gs.milliseconds_before_first_turn ∷ []
    else if str_eq v "delay-turns"
    then float_value v gs.milliseconds_between_turns ∷ []
    else if str_eq v "all"
    then all_values gs
    else []

printed_value : String → GlobalState → List Printed
unfolding chosen_value string_in_slice
printed_value v gs =
    if string_in_slice v (accepted_set_variables ++ ("all" ∷ []))
    then chosen_value v gs
    else bad_variable ∷ []

-- An integer within bounds replaces the old one.
set_int : Option ℤ → ℤ → ℤ → (ℤ → GlobalState) → Shell → Shell
unfolding says
set_int none lo hi store s = says bad_value s
set_int (some v) lo hi store s =
    if leb_ℤ lo v && leb_ℤ v hi
    then record s { global = store v; printed = [] }
    else says not_in_range s

-- The test asks for both bounds, which NaN does not meet.
set_delay : Option Float64 → (Float64 → GlobalState) → Shell → Shell
unfolding says
set_delay none store s = says bad_value s
set_delay (some v) store s =
    if Float64.le (of_int (pos 50)) v && Float64.le v (of_int (pos 10000))
    then record s { global = store v; printed = [] }
    else says not_in_range s

-- The `switch` on a variable that is accepted.
assign : String → Option ℤ → Option Float64 → Shell → Shell
unfolding set_int set_delay
assign v int_v float_v s =
    if str_eq v "nb-turns-max"
    then set_int int_v (pos 1) (pos 65535) (λ n. record gs { nb_turns_max = n }) s
    else if str_eq v "nb-players-max"
    then set_int int_v (pos 1) (pos 1024) (λ n. record gs { nb_players_max = n }) s
    else if str_eq v "nb-splayers-max"
    then set_int int_v (pos 0) (pos 1024) (λ n. record gs { nb_special_players_max = n }) s
    else if str_eq v "nb-visus-max"
    then set_int int_v (pos 0) (pos 1024) (λ n. record gs { nb_visus_max = n }) s
    else if str_eq v "delay-first-turn"
    then set_delay float_v (λ d. record gs { milliseconds_before_first_turn = d }) s
    else if str_eq v "delay-turns"
    then set_delay float_v (λ d. record gs { milliseconds_between_turns = d }) s
    else record s { printed = [] }
  where
    gs : GlobalState
    gs = s.global

execute_set : String → Option ℤ → Option Float64 → Shell → Shell
unfolding assign string_in_slice says
execute_set v int_v float_v s =
    if string_in_slice v accepted_set_variables
    then assign v int_v float_v s
    else says bad_variable s

module _ (strconv : Strconv) where
  open strconv use {parse_int, parse_float}

  unfoldable pub executor : Line → Shell → Outcome Shell
  unfolding execute_start execute_quit printed_value execute_set
  executor start s = execute_start s
  executor quit s = execute_quit s
  executor (print v) s = returns (record s { printed = printed_value v s.global })
  executor (set v value) s =
      returns (execute_set v (parse_int (codes value) 64) (parse_float (codes value) 64) s)
  executor malformed s = returns (record s { printed = expected_syntax ∷ [] })
  executor ignored s = returns (record s { printed = [] })

  -- The `executor` of the source, on a line as it is typed.
  unfoldable pub executor_line : String → Shell → Outcome Shell
  unfolding executor
  executor_line text s = executor (parse_line text) s
