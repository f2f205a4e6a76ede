-- ===== src/Prompt/Loop.antt =====
-- prompt.go: `RunPrompt`, `interactivePrompt` and `nonInteractivePrompt`, which execute line after line. `lines` is what `ReadString` reads before the end
-- of the input; from then on each call returns an empty text with an error, which the loop drops.
use netorcai.Prelude.{
  Bool, if◌then◌else◌, ℕ, zero, suc, ◌+◌, String, ◌≡◌, refl, List, [], ◌∷◌, length, arith, ◌∙◌,
  subst, ap,
}
use netorcai.Strconv.{Strconv}
use netorcai.Outcome.{send, Outcome, returns, ◌>>=◌, returns_inj, >>=-eq-returns}
use netorcai.Prompt.Lines.{parse_line}
use netorcai.Prompt.{Shell, executor, executor_line}

next_line : List String → String
next_line [] = ""
next_line (line ∷ lines) = line

later_lines : List String → List String
later_lines [] = []
later_lines (line ∷ lines) = lines

module _ (strconv : Strconv) where
  -- The shell after a number of rounds; the loop itself has no end.
  unfoldable pub non_interactive_prompt : ℕ → List String → Shell → Outcome Shell
  unfolding next_line later_lines
  non_interactive_prompt zero lines s = returns s
  non_interactive_prompt (suc rounds) lines s =
      executor_line strconv (next_line lines) s
      >>= non_interactive_prompt rounds (later_lines lines)

  -- `prompt.Run()` of go-prompt executes the lines until it is left; then `onexit <- 1`.
  unfoldable pub interactive_prompt : List String → Shell → Outcome Shell
  interactive_prompt [] s = do exit ← send 1 s.exit; returns (record s { exit = exit })
  interactive_prompt (line ∷ lines) s = executor_line strconv line s >>= interactive_prompt lines

  -- Without a terminal the prompt is followed for a number of rounds.
  unfoldable pub run_prompt : Bool → ℕ → List String → Shell → Outcome Shell
  unfolding interactive_prompt non_interactive_prompt
  run_prompt interactive rounds lines s =
      if interactive then interactive_prompt lines s else non_interactive_prompt rounds lines s

  empty_line : (s : Shell) → executor_line strconv "" s ≡ returns (record s { printed = [] })
  unfolding executor_line executor parse_line
  empty_line s = refl

  -- Nothing is left to read.
  idle_rounds :
      (rounds : ℕ) (s : Shell)
      → (s' : Shell) × (non_interactive_prompt rounds [] s ≡ returns s')
        × (s'.global ≡ s.global)
        × (s'.exit ≡ s.exit)
  unfolding non_interactive_prompt
  idle_rounds zero s = (s, refl, refl, refl)
  idle_rounds (suc rounds) s =
      let (s', run, global, exit) = idle_rounds rounds (record s { printed = [] }) in
      (s', rw (empty_line s) run, global, exit)

  -- Once the lines of the standard input are executed, the loop goes on for as many rounds as one
  -- likes: none of them ends it or waits, and none changes the shared state or asks the program to exit.
  pub non_interactive_prompt_idle :
      (lines : List String) (rounds : ℕ) (s s' : Shell)
      → non_interactive_prompt (length lines) lines s ≡ returns s'
      → (s'' : Shell) × (non_interactive_prompt (length lines + rounds) lines s ≡ returns s'')
        × (s''.global ≡ s'.global)
        × (s''.exit ≡ s'.exit)
  unfolding non_interactive_prompt
  non_interactive_prompt_idle [] rounds s s' h =
      let (s'', run, global, exit) = idle_rounds rounds s in
      let same : s ≡ s' = returns_inj h in
      (
        s'',
        subst (λ n. non_interactive_prompt n [] s ≡ returns s'') (omega arith) run,
        global ∙ ap (λ q. q.global) same,
        exit ∙ ap (λ q. q.exit) same,
      )
  non_interactive_prompt_idle (line ∷ lines) rounds s s' h =
      let (s₁, first, rest) = >>=-eq-returns (executor_line strconv line s) _ h in
      let (s'', run, global, exit) = non_interactive_prompt_idle lines rounds s₁ s' rest in
      let next : non_interactive_prompt (suc (length lines + rounds)) (line ∷ lines) s
          ≡ returns s'' =
        ap (λ o. o >>= non_interactive_prompt (length lines + rounds) lines) first ∙ run in
      (
        s'',
        subst (λ n. non_interactive_prompt n (line ∷ lines) s ≡ returns s'')
            {x = suc (length lines + rounds)} (omega arith) next,
        global,
        exit,
      )
