-- ===== src/Main/Launch.antt =====
-- cmd/netorcai/main.go: `mainReturnWithCode` up to the start of the server and of the prompt. What docopt makes of the
-- command line is a parameter: the arguments, and the code that its help handler sets when it prints the usage.
use netorcai.Prelude.{
  ℕ, ℤ, pos, ◌≤ℤ◌, ◌≡◌, refl, ap, ◌∙◌, ◌⊎◌, inl, inr, Bool, false, Option, none, some,
  if◌then◌else◌, arith,
}
use netorcai.Result.{Result, ok, err, Error, Result-cases}
use netorcai.Json.{Value, bool, Fields, lookup}
use netorcai.Strconv.{Strconv}
use netorcai.ReadUtil.{read_int_in_string}
use netorcai.ReadUtil.Ranges.{read_int_in_string_range}
use netorcai.Outcome.{Outcome, returns, blocks, panics}
use netorcai.State.{GlobalState}
use netorcai.Main.{initialize_global_state, Exit, on_exit}
use netorcai.Main.Settings.{IsInitial, initialize_global_state-IsInitial}

pub data Level : Type 0 where
  debug info warn : Level

pub record Logging : Type 0 where
  pub json : Bool
  pub level : Level

-- `arguments[name] == true`
is_true : Option Value → Bool
is_true (some (bool b)) = b
is_true _ = false

unfoldable pub setup_logging : Fields → Logging
unfolding is_true lookup
setup_logging arguments = record {
  json = is_true (lookup arguments "--json-logs");
  level =
      if is_true (lookup arguments "--debug")
      then debug
      else if is_true (lookup arguments "--quiet")
      then warn
      else info;
}

-- What runs: the server on a port, and the prompt.
pub record Program : Type 0 where
  pub logging : Logging
  pub port : ℤ
  pub global : GlobalState
  pub interactive : Bool

pub data Launch : Type 0 where
  stops : ℕ → Launch
  runs : Program → Launch

-- `terminal` says whether the standard output is one.
interactive_prompt : Bool → Fields → Bool
unfolding is_true lookup
interactive_prompt terminal arguments =
    if is_true (lookup arguments "--simple-prompt") then false else terminal

started : Bool → Fields → ℤ → Outcome (Result GlobalState) → Outcome Launch
unfolding setup_logging interactive_prompt
started terminal arguments port (returns (ok gs)) = returns (
    runs (record {
      logging = setup_logging arguments;
      port = port;
      global = gs;
      interactive = interactive_prompt terminal arguments;
    }))
started terminal arguments port (returns (err e)) = returns (stops 1)
started terminal arguments port blocks = blocks
started terminal arguments port panics = panics

with_port : Strconv → Bool → Fields → Result ℤ → Outcome Launch
unfolding started
with_port strconv terminal arguments (err e) = returns (stops 1)
with_port strconv terminal arguments (ok port) =
    started terminal arguments port (initialize_global_state strconv arguments)

unfoldable pub launch : Strconv → Option ℕ → Bool → Fields → Outcome Launch
unfolding with_port
launch strconv (some code) terminal arguments = returns (stops code)
launch strconv none terminal arguments =
    with_port strconv terminal arguments
      (read_int_in_string strconv arguments "--port" 64 (pos 1) (pos 65535))

-- The exit code, by the channel that is heard of first if the program runs.
exit_code : Exit → Outcome Launch → Outcome ℕ
unfolding on_exit
exit_code exit (returns (stops code)) = returns code
exit_code exit (returns (runs p)) = returns (on_exit exit).code
exit_code exit blocks = blocks
exit_code exit panics = panics

unfoldable pub main_return_with_code : Strconv → Option ℕ → Bool → Fields → Exit → Outcome ℕ
unfolding exit_code
main_return_with_code strconv help terminal arguments exit =
    exit_code exit (launch strconv help terminal arguments)

-- The command line with which the program starts.
pub record IsProgram (strconv : Strconv) (arguments : Fields) (p : Program) : Type 0 where
  pub port_read : read_int_in_string strconv arguments "--port" 64 (pos 1) (pos 65535) ≡ ok p.port
  pub port_range : (pos 1 ≤ℤ p.port) × (p.port ≤ℤ pos 65535)
  pub settings_read : initialize_global_state strconv arguments ≡ returns (ok p.global)
  pub initial : IsInitial p.global

-- Why the program stops before it starts anything.
abbrev pub Refuses : Strconv → Fields → Type 0
Refuses strconv arguments =
    ((e : Error) × (read_int_in_string strconv arguments "--port" 64 (pos 1) (pos 65535) ≡ err e))
    ⊎ ((e : Error) × (initialize_global_state strconv arguments ≡ returns (err e)))

started-runs :
    (strconv : Strconv) (terminal : Bool) (arguments : Fields) (port : ℤ)
    (gs : Outcome (Result GlobalState)) (p : Program)
    → started terminal arguments port gs ≡ returns (runs p)
    → (gs ≡ returns (ok p.global)) × (port ≡ p.port)
unfolding started
started-runs strconv terminal arguments port (returns (ok gs)) p h = ground arith
started-runs strconv terminal arguments port (returns (err e)) p h = cc
started-runs strconv terminal arguments port blocks p h = cc
started-runs strconv terminal arguments port panics p h = cc

started-stops :
    (terminal : Bool) (arguments : Fields) (port : ℤ) (gs : Outcome (Result GlobalState)) (code : ℕ)
    → started terminal arguments port gs ≡ returns (stops code)
    → (code ≡ 1) × ((e : Error) × (gs ≡ returns (err e)))
unfolding started
started-stops terminal arguments port (returns (ok gs)) code h = cc
started-stops terminal arguments port (returns (err e)) code h = (cc, (e, refl))
started-stops terminal arguments port blocks code h = cc
started-stops terminal arguments port panics code h = cc

launch-runs :
    (strconv : Strconv) (help : Option ℕ) (terminal : Bool) (arguments : Fields) (p : Program)
    → launch strconv help terminal arguments ≡ returns (runs p)
    → (help ≡ none) × IsProgram strconv arguments p
unfolding launch with_port
launch-runs strconv (some code) terminal arguments p h = cc
launch-runs strconv none terminal arguments p h =
    elim (Result-cases (read_int_in_string strconv arguments "--port" 64 (pos 1) (pos 65535))) [
      | inl (port, e) ↦
          let (settings, same) =
            started-runs strconv terminal arguments port (initialize_global_state strconv arguments)
              p (rw e at h) in
          let port_read = e ∙ ap ok same in
          (
            refl,
            record {
              port_read = port_read;
              port_range =
                  read_int_in_string_range strconv arguments "--port" 64 (pos 1) (pos 65535) p.port
                    port_read;
              settings_read = settings;
              initial = initialize_global_state-IsInitial strconv arguments p.global settings;
            },
          )
      | inr (x, e) ↦ absurd (ground arith)
    ]

launch-stops :
    (strconv : Strconv) (help : Option ℕ) (terminal : Bool) (arguments : Fields) (code : ℕ)
    → launch strconv help terminal arguments ≡ returns (stops code)
    → (help ≡ some code) ⊎ ((code ≡ 1) × Refuses strconv arguments)
unfolding launch with_port
launch-stops strconv (some code') terminal arguments code h = inl (ground arith)
launch-stops strconv none terminal arguments code h =
    elim (Result-cases (read_int_in_string strconv arguments "--port" 64 (pos 1) (pos 65535))) [
      | inl (port, e) ↦
          let (one, refused) =
            started-stops terminal arguments port (initialize_global_state strconv arguments) code
              (rw e at h) in
          inr (one, inr refused)
      | inr (x, e) ↦ inr (ground arith, inl (x, e))
    ]

-- If the launch does not panic: the program runs only if no usage was printed, on a port from 1 to
-- 65535 and with initial parameters of which no count is out of its bounds, and no delay is below
-- 50 or above 10000, which NaN is not either; otherwise it stops with the code of the usage, or
-- with 1 because the port or another argument was refused.
pub launch_lem :
    (strconv : Strconv) (help : Option ℕ) (terminal : Bool) (arguments : Fields) (l : Launch)
    → launch strconv help terminal arguments ≡ returns l
    → ((p : Program) × (l ≡ runs p) × (help ≡ none) × IsProgram strconv arguments p)
      ⊎ ((code : ℕ) × (l ≡ stops code)
          × ((help ≡ some code) ⊎ ((code ≡ 1) × Refuses strconv arguments)))
launch_lem strconv help terminal arguments (runs p) h =
    let (no_usage, program) = launch-runs strconv help terminal arguments p h in
    inl (p, refl, no_usage, program)
launch_lem strconv help terminal arguments (stops code) h =
    inr (code, refl, launch-stops strconv help terminal arguments code h)
