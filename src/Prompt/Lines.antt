-- ===== src/Prompt/Lines.antt =====
-- prompt.go: how `executor` takes a line apart. The text is trimmed, and the four expressions are scanners on its
-- characters:
--   \Astart\z    \Aquit\z    \Aprint\s+(?P<variable>\S+)\z
--   \Aset\s+(?P<variable>\S+)(?P<sep>\s|=)(?P<value>\S+)\z
-- A repetition takes as much as it can.
pub mod Patterns
pub mod Longest
use Prim.Native.Char.{Char, code}
use text.Mathlib.TextBridge.{of_list}
use netorcai.Prelude.{
  ℕ, String, ◌≡◌, List, [], ◌∷◌, Bool, true, false, not, ◌&&◌, ◌||◌, Option, none, some, leb, ◌==◌,
  if◌then◌else◌, str_eq, refl,
}
use netorcai.Messages.{is_space}

abbrev pub chars : String → List Char
chars String.[] = []
chars (String.◌∷◌ c s) = c ∷ chars s

-- What a line is: it matches one of the expressions, it gets a hint at the syntax, or it is ignored.
pub data Line : Type 0 where
  start quit : Line
  print : String → Line
  set : String → String → Line
  malformed ignored : Line

abbrev pub is_blank : Char → Bool
is_blank c = is_space (code c)

abbrev pub is_mark : Char → Bool
is_mark c = not (is_blank c)

abbrev pub is_equal : Char → Bool
is_equal c = code c == b'='

-- `unicode.IsSpace`, of which `\s` is a part.
is_unicode_space : ℕ → Bool
is_unicode_space c =
    (leb 9 c && leb c 13)
    || (c == 32
        || (c == 0x85
            || (c == 0xa0
                || (c == 0x1680
                    || ((leb 0x2000 c && leb c 0x200a)
                        || (c == 0x2028
                            || (c == 0x2029 || (c == 0x202f || (c == 0x205f || c == 0x3000)))))))))

trim_left : List Char → List Char
trim_left [] = []
trim_left (c ∷ cs) = let rest = trim_left cs in if is_unicode_space (code c) then rest else c ∷ cs

keep_unless_space : Char → List Char → List Char
keep_unless_space c [] = if is_unicode_space (code c) then [] else c ∷ []
keep_unless_space c (d ∷ ds) = c ∷ d ∷ ds

trim_right : List Char → List Char
unfolding keep_unless_space
trim_right [] = []
trim_right (c ∷ cs) = keep_unless_space c (trim_right cs)

-- `strings.TrimSpace`
unfoldable pub trim_space : List Char → List Char
unfolding is_unicode_space trim_left trim_right
trim_space cs = trim_right (trim_left cs)

-- The text behind a prefix.
unfoldable pub strip : List Char → List Char → Option (List Char)
strip [] cs = some cs
strip (p ∷ ps) [] = none
strip (p ∷ ps) (c ∷ cs) = let rest = strip ps cs in if code c == code p then rest else none

-- The longest run of characters that pass, and the rest.
unfoldable pub span : (Char → Bool) → List Char → List Char × List Char
span test [] = ([], [])
span test (c ∷ cs) =
    let (run, rest) = span test cs in if test c then (c ∷ run, rest) else ([], c ∷ cs)

-- `\S+\z`
unfoldable pub is_word : List Char → Bool
is_word [] = false
is_word (c ∷ []) = is_mark c
is_word (c ∷ d ∷ cs) = is_mark c && is_word (d ∷ cs)

-- `\s+`, taken whole: what follows it is not blank.
behind : List Char × List Char → Option (List Char)
behind ([], rest) = none
behind (b ∷ bs, rest) = some rest

behind_blanks : Option (List Char) → Option (List Char)
unfolding behind span
behind_blanks none = none
behind_blanks (some cs) = behind (span is_blank cs)

word : Option (List Char) → Option (List Char)
unfolding is_word
word none = none
word (some cs) = if is_word cs then some cs else none

unfoldable pub print_argument : List Char → Option (List Char)
unfolding word behind_blanks strip
print_argument line = word (behind_blanks (strip (chars "print") line))

-- The last `=` with a text behind it splits.
cut_equal : Char → List Char → Option (List Char × List Char) → Option (List Char × List Char)
cut_equal c cs (some (v, w)) = some (c ∷ v, w)
cut_equal c [] none = none
cut_equal c (d ∷ ds) none = if is_equal c then some ([], d ∷ ds) else none

pub last_equal : List Char → Option (List Char × List Char)
unfolding cut_equal
last_equal [] = none
last_equal (c ∷ cs) = cut_equal c cs (last_equal cs)

pub named : Option (List Char × List Char) → Option (List Char × List Char)
named none = none
named (some ([], w)) = none
named (some (c ∷ v, w)) = some (c ∷ v, w)

-- The variable up to a blank, or up to the last `=`.
variable_and_value : List Char × List Char → Option (List Char × List Char)
unfolding last_equal is_word named
variable_and_value (v, []) = named (last_equal v)
variable_and_value (v, sep ∷ w) = if is_word w then named (some (v, w)) else none

assignment : Option (List Char) → Option (List Char × List Char)
unfolding variable_and_value span
assignment none = none
assignment (some cs) = variable_and_value (span is_mark cs)

unfoldable pub set_arguments : List Char → Option (List Char × List Char)
unfolding assignment behind_blanks strip
set_arguments line = assignment (behind_blanks (strip (chars "set") line))

unfoldable pub has_prefix : Option (List Char) → Bool
has_prefix none = false
has_prefix (some rest) = true

-- A line that begins like a command gets a hint.
hint : List Char → Line
unfolding has_prefix strip
hint line =
    if has_prefix (strip (chars "start") line)
      || (has_prefix (strip (chars "quit") line)
          || (has_prefix (strip (chars "print") line) || has_prefix (strip (chars "set") line)))
    then malformed
    else ignored

set_or : Option (List Char × List Char) → Line → Line
set_or none line = line
set_or (some (v, w)) line = set (of_list v) (of_list w)

print_or : Option (List Char) → Line → Line
print_or none line = line
print_or (some v) line = print (of_list v)

line_of : List Char → Line
unfolding print_or set_or hint print_argument set_arguments
line_of cs =
    if str_eq (of_list cs) "start"
    then start
    else if str_eq (of_list cs) "quit"
    then quit
    else print_or (print_argument cs) (set_or (set_arguments cs) (hint cs))

unfoldable pub parse_line : String → Line
unfolding line_of trim_space
parse_line text = line_of (trim_space (chars text))
