-- ===== src/Tests/Prompt.antt =====
-- Lines as they are typed.
use netorcai.Prelude.{◌≡◌, refl, [], ◌∷◌, ◌+◌}
use netorcai.Outcome.{returns}
use netorcai.Prompt.{Shell, executor_line}
use netorcai.Prompt.Lines.{chars, set, print, malformed, ignored, parse_line}
use netorcai.Prompt.Lines.Longest.{FindsLongest, set_arguments-FindsLongest}
use netorcai.Prompt.Loop.{non_interactive_prompt, non_interactive_prompt_idle}
use netorcai.Tests.Server.{strconv, shell}

set_blank : parse_line "  set\t nb-turns-max 12\n" ≡ set "nb-turns-max" "12"
unfolding parse_line
set_blank = refl

set_equals : parse_line "set a=b=c" ≡ set "a=b" "c"
unfolding parse_line
set_equals = refl

set_no_value : parse_line "set a=" ≡ malformed
unfolding parse_line
set_no_value = refl

set_both : parse_line "set a=b c" ≡ set "a=b" "c"
unfolding parse_line
set_both = refl

print_all : parse_line "print   all" ≡ print "all"
unfolding parse_line
print_all = refl

setting : parse_line "sett" ≡ malformed
unfolding parse_line
setting = refl

help : parse_line "help" ≡ ignored
unfolding parse_line
help = refl

set_arguments-FindsLongest_example : FindsLongest (chars "set a=b=c")
set_arguments-FindsLongest_example = set_arguments-FindsLongest (chars "set a=b=c")

abbrev quitting : Shell
quitting = record shell { exit = record { capacity = 1; queue = 0 ∷ [] } }

non_interactive_prompt_idle_example :
    (s'' : Shell) × (non_interactive_prompt strconv (1 + 3) ("quit\n" ∷ []) shell ≡ returns s'')
    × (s''.global ≡ shell.global)
    × (s''.exit ≡ quitting.exit)
unfolding non_interactive_prompt executor_line parse_line
non_interactive_prompt_idle_example =
    non_interactive_prompt_idle strconv ("quit\n" ∷ []) 3 shell quitting refl
