-- ===== src/Prompt/Starts.antt =====
-- prompt.go: how the command `start` ends.
use netorcai.Prelude.{
  ◌≡◌, ◌≢◌, ◌⊎◌, false, refl, inl, inr, [], ◌∷◌, length, ◌==◌, ==_iff, arith, Bool-cases,
}
use netorcai.Strconv.{Strconv}
use netorcai.Outcome.{returns}
use netorcai.State.{GameState, finished, not_running, running}
use netorcai.Login.{is_not_running}
use netorcai.Login.Autostart.{AllFresh, send_start_returns}
use netorcai.Prompt.{Shell, already_started, no_game_logic, says, execute_start, executor}
use netorcai.Prompt.Lines.{start}
use netorcai.Prompt.Effects.{not_running-eq}

pub started : (s : GameState) → s ≢ finished → is_not_running s ≡ false → s ≡ running
started not_running open_ h = cc
started running open_ h = refl
started finished open_ h = absurd (open_ refl)

-- If the game logics have no order while no game runs, `start` returns, and the game runs then, or there
-- is not one game logic.
pub executor-start_returns :
    (strconv : Strconv) (s : Shell)
    → s.global.game_state ≢ finished
    → (s.global.game_state ≡ not_running → AllFresh s.global.game_logic)
    → (s' : Shell) × (executor strconv start s ≡ returns s')
      × ((s'.global.game_state ≡ running) ⊎ (length s.global.game_logic ≢ 1))
unfolding executor execute_start says
executor-start_returns strconv s open_ fresh =
    elim (Bool-cases (is_not_running s.global.game_state)) [
      | inr already ↦ (
        record s { printed = already_started ∷ [] },
        rw already refl,
        inl (started s.global.game_state open_ already),
      )
      | inl idle ↦ elim (Bool-cases (length s.global.game_logic == 1)) [
        | inr absent ↦ (
          record s { printed = no_game_logic ∷ [] },
          rw (idle, absent) refl,
          inr (λ one. ground arith),
        )
        | inl one ↦
            let (gls, sent) =
              send_start_returns s.global.game_logic ((==_iff _ _).0 one)
                (fresh (not_running-eq s.global.game_state idle)) in
            (
              record s {
                global = record (s.global) { game_state = running; game_logic = gls };
                printed = [];
              },
              rw (idle, one, sent) refl,
              inl refl,
            )
      ]
    ]
