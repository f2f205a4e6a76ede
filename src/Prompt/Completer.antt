-- ===== src/Prompt/Completer.antt =====
-- prompt.go: `completer`. `prompt.FilterHasPrefix` of go-prompt is a parameter.
use Prim.Native.Char.{Char, code}
use text.Mathlib.TextBridge.{of_list}
use netorcai.Prelude.{
  ℕ, suc, String, ◌≡◌, refl, List, [], ◌∷◌, ◌++◌, Bool, true, false, Option, none, some, All, ◌==◌,
  if◌then◌else◌, arith,
}
use netorcai.Prompt.Lines.{chars, strip, has_prefix}
use netorcai.Prompt.{string_in_slice, accepted_set_variables}

pub record Suggest : Type 0 where
  pub text : String
  pub description : String

abbrev suggest : String → String → Suggest
suggest t d = record { text = t; description = d }

abbrev pub commands_suggestions : List Suggest
commands_suggestions =
    suggest "start" "Start the game"
    ∷ suggest "print" "Print value of variable"
    ∷ suggest "set" "Set value of variable"
    ∷ suggest "quit" "Quit netorcai"
    ∷ []

abbrev pub set_suggestions : List Suggest
set_suggestions =
    suggest "nb-turns-max" "Maximum number of turns"
    ∷ suggest "nb-players-max" "Maximum number of players"
    ∷ suggest "nb-splayers-max" "Maximum number of special players"
    ∷ suggest "nb-visus-max" "Maximum number of visualizations"
    ∷ suggest "delay-first-turn" "Time (ms) before 1st turn"
    ∷ suggest "delay-turns" "Time (ms) between turns"
    ∷ []

abbrev pub print_suggestions : List Suggest
print_suggestions = set_suggestions ++ (suggest "all" "Print the value of all variables" ∷ [])

-- `strings.Count(t, " ")`
pub count_spaces : List Char → ℕ
count_spaces [] = 0
count_spaces (c ∷ cs) = let n = count_spaces cs in if code c == 32 then suc n else n

without : Option (List Char) → List Char → List Char
without none cs = cs
without (some rest) cs = rest

-- `strings.TrimPrefix`
trim_prefix : String → List Char → List Char
unfolding without strip
trim_prefix prefix cs = without (strip (chars prefix) cs) cs

set-not_print :
    (cs : List Char)
    → has_prefix (strip (chars "set") cs) ≡ true
    → has_prefix (strip (chars "print") cs) ≡ false
unfolding has_prefix strip
set-not_print [] h = cc
set-not_print (c ∷ cs) h = ground arith

module _ (filter_has_prefix : List Suggest → String → Bool → List Suggest) where
  unfoldable pub completer : String → List Suggest
  unfolding count_spaces trim_prefix
  completer text =
      if count_spaces (chars text) == 0
      then filter_has_prefix commands_suggestions text true
      else if has_prefix (strip (chars "print") (chars text))
      then filter_has_prefix print_suggestions (of_list (trim_prefix "print " (chars text))) true
      else if has_prefix (strip (chars "set") (chars text))
      then filter_has_prefix set_suggestions (of_list (trim_prefix "set " (chars text))) true
      else []

  -- If go-prompt offers only what it is given: behind `set` the completer offers only names that `set` accepts,
  -- and behind `print` only names that `print` accepts.
  pub completer-accepted :
      ((given : List Suggest) (prefix : String) (ignore_case : Bool) (test : Suggest → Bool)
        → All (λ x. test x ≡ true) given
        → All (λ x. test x ≡ true) (filter_has_prefix given prefix ignore_case))
      → (text : String) → (count_spaces (chars text) == 0) ≡ false
      → (has_prefix (strip (chars "print") (chars text)) ≡ true
          → All
              (λ x. string_in_slice x.text (accepted_set_variables ++ ("all" ∷ [])) ≡ true)
              (completer text))
        × (has_prefix (strip (chars "set") (chars text)) ≡ true
            → All (λ x. string_in_slice x.text accepted_set_variables ≡ true) (completer text))
  unfolding completer string_in_slice
  completer-accepted only text spaces = (
    λ is_print.
        rw (spaces, is_print)
          (only print_suggestions _ true
            (λ x. string_in_slice x.text (accepted_set_variables ++ ("all" ∷ [])))
            (refl, (refl, (refl, (refl, (refl, (refl, (refl, tt)))))))),
    λ is_set.
        rw (spaces, set-not_print (chars text) is_set, is_set)
          (only set_suggestions _ true (λ x. string_in_slice x.text accepted_set_variables)
            (refl, (refl, (refl, (refl, (refl, (refl, tt))))))),
  )
