-- ===== src/Main/Settings.antt =====
-- What the command line can set up.
use netorcai.Prelude.{pos, ◌≡◌, refl, [], arith, subst, Bool}
use netorcai.Result.{Result, ok, err, >>=-eq-ok, ok_inj}
use netorcai.Json.{Fields, lookup}
use netorcai.Strconv.{Strconv}
use netorcai.Outcome.{Outcome, returns, blocks, panics, returns_inj}
use netorcai.State.{GlobalState, not_running}
use netorcai.ReadUtil.Ranges.{read_int_in_string_range, read_float_in_string_range}
use netorcai.ReadUtil.{read_int_in_string, read_float_in_string}
use netorcai.Float64.{of_int}
use netorcai.Login.Admission.{WithinLimits}
use netorcai.Prompt.Bounds.{WithinBounds}
use netorcai.Main.{as_bool, flagged, read_settings, with_flags, initialize_global_state}

-- The shared state that the program starts with.
pub record IsInitial (gs : GlobalState) : Type 0 where
  pub bounds : WithinBounds gs
  pub limits : WithinLimits gs
  pub idle : gs.game_state ≡ not_running
  pub nobody : gs.game_logic ≡ []
  pub no_players : gs.players ≡ []
  pub no_special_players : gs.special_players ≡ []
  pub no_visus : gs.visus ≡ []

read_settings-IsInitial :
    (strconv : Strconv) (arguments : Fields) (gs : GlobalState)
    → read_settings strconv arguments ≡ ok gs
    → IsInitial gs
unfolding read_settings
read_settings-IsInitial strconv arguments gs h =
    let (players, p, h₁) =
      >>=-eq-ok (read_int_in_string strconv arguments "--nb-players-max" 64 (pos 0) (pos 1024)) _
        h in
    let (specials, q, h₂) =
      >>=-eq-ok (read_int_in_string strconv arguments "--nb-splayers-max" 64 (pos 0) (pos 1024)) _
        h₁ in
    let (visus, v, h₃) =
      >>=-eq-ok (read_int_in_string strconv arguments "--nb-visus-max" 64 (pos 0) (pos 1024)) _
        h₂ in
    let (turns, t, h₄) =
      >>=-eq-ok (read_int_in_string strconv arguments "--nb-turns-max" 64 (pos 1) (pos 65535)) _
        h₃ in
    let (first, f, h₅) =
      >>=-eq-ok
        (read_float_in_string strconv arguments "--delay-first-turn" 64 (of_int (pos 50))
          (of_int (pos 10000)))
        _ h₄ in
    let (delay, d, h₆) =
      >>=-eq-ok
        (read_float_in_string strconv arguments "--delay-turns" 64 (of_int (pos 50))
          (of_int (pos 10000)))
        _ h₅ in
    let (p_lo, p_hi) =
      read_int_in_string_range strconv arguments "--nb-players-max" 64 (pos 0) (pos 1024) players
        p in
    let (q_lo, q_hi) =
      read_int_in_string_range strconv arguments "--nb-splayers-max" 64 (pos 0) (pos 1024) specials
        q in
    let (v_lo, v_hi) =
      read_int_in_string_range strconv arguments "--nb-visus-max" 64 (pos 0) (pos 1024) visus v in
    let (t_lo, t_hi) =
      read_int_in_string_range strconv arguments "--nb-turns-max" 64 (pos 1) (pos 65535) turns t in
    subst IsInitial (ok_inj h₆) (record {
      bounds = record {
        turns = (t_lo, t_hi);
        players = (p_lo, p_hi);
        special_players = (q_lo, q_hi);
        visus = (v_lo, v_hi);
        first_delay =
            read_float_in_string_range strconv arguments "--delay-first-turn" 64 (of_int (pos 50))
              (of_int (pos 10000)) first f;
        delay =
            read_float_in_string_range strconv arguments "--delay-turns" 64 (of_int (pos 50))
              (of_int (pos 10000)) delay d;
      };
      limits = record {
        players_within = p_lo;
        special_players_within = q_lo;
        visus_within = v_lo;
        one_game_logic = omega arith;
      };
      idle = refl;
      nobody = refl;
      no_players = refl;
      no_special_players = refl;
      no_visus = refl;
    })

flagged-IsInitial :
    (gs₀ gs : GlobalState) (autostart fast : Outcome Bool)
    → IsInitial gs₀
    → flagged gs₀ autostart fast ≡ returns (ok gs)
    → IsInitial gs
unfolding flagged
flagged-IsInitial gs₀ gs (returns autostart) (returns fast) i h =
    subst IsInitial (ok_inj (returns_inj h)) (record {
      bounds = record {
        turns = i.bounds.turns;
        players = i.bounds.players;
        special_players = i.bounds.special_players;
        visus = i.bounds.visus;
        first_delay = i.bounds.first_delay;
        delay = i.bounds.delay;
      };
      limits = record {
        players_within = i.limits.players_within;
        special_players_within = i.limits.special_players_within;
        visus_within = i.limits.visus_within;
        one_game_logic = i.limits.one_game_logic;
      };
      idle = i.idle;
      nobody = i.nobody;
      no_players = i.no_players;
      no_special_players = i.no_special_players;
      no_visus = i.no_visus;
    })
flagged-IsInitial gs₀ gs (returns autostart) blocks i h = cc
flagged-IsInitial gs₀ gs (returns autostart) panics i h = cc
flagged-IsInitial gs₀ gs blocks fast i h = cc
flagged-IsInitial gs₀ gs panics fast i h = cc

with_flags-IsInitial :
    (arguments : Fields) (r : Result GlobalState) (gs : GlobalState)
    → ((gs₀ : GlobalState) → r ≡ ok gs₀ → IsInitial gs₀)
    → with_flags arguments r ≡ returns (ok gs)
    → IsInitial gs
unfolding with_flags
with_flags-IsInitial arguments (err e) gs each h = cc
with_flags-IsInitial arguments (ok gs₀) gs each h =
    flagged-IsInitial gs₀ gs (as_bool (lookup arguments "--autostart"))
      (as_bool (lookup arguments "--fast")) (each gs₀ refl) h

-- A command line that is accepted gives a state whose parameters are within their bounds and in
-- which nobody is logged in yet, so no list is longer than its limit.
pub initialize_global_state-IsInitial :
    (strconv : Strconv) (arguments : Fields) (gs : GlobalState)
    → initialize_global_state strconv arguments ≡ returns (ok gs)
    → IsInitial gs
unfolding initialize_global_state
initialize_global_state-IsInitial strconv arguments gs h =
    with_flags-IsInitial arguments (read_settings strconv arguments) gs
      (read_settings-IsInitial strconv arguments) h
