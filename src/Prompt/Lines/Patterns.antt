-- ===== src/Prompt/Lines/Patterns.antt =====
-- The scanner of `set` against its regular expression.
use Prim.Native.Char.{Char, code}
use mathlib.Core.List.{append-nil}
use text.Mathlib.TextEquality.{Char-path}
use netorcai.Prelude.{
  ◌≤◌, ◌≡◌, refl, ap, subst, ◌∙◌, ◌≢◌, inl, inr, List, [], ◌∷◌, ◌++◌, length, Bool, true, false,
  ◌||◌, ◌==◌, ==_iff, Option, none, some, All, Bool-cases, &&-eq-true, Option-cases, arith,
  some_inj,
}
use netorcai.Prompt.Lines.{
  chars, is_blank, is_mark, is_equal, strip, span, is_word, behind, behind_blanks, cut_equal,
  last_equal, named, variable_and_value, assignment, set_arguments,
}

strip-some : (p cs rest : List Char) → strip p cs ≡ some rest → cs ≡ p ++ rest
unfolding strip
strip-some [] cs rest h = ground arith
strip-some (c ∷ p) [] rest h = cc
strip-some (c ∷ p) (d ∷ cs) rest h = elim (Bool-cases (code d == code c)) [
  | inl hit ↦
      let same_char = Char-path d c ((==_iff _ _).0 hit) in
      let tail = strip-some p cs rest (rw hit at h) in cc (same_char, tail)
  | inr miss ↦ absurd (ground arith)
]

-- The head, if there is one, fails.
abbrev pub Stops : (Char → Bool) → List Char → Type 0
Stops test [] = Unit {0}
Stops test (c ∷ cs) = test c ≡ false

pub span-append :
    (test : Char → Bool) (run rest : List Char)
    → All (λ c. test c ≡ true) run
    → Stops test rest
    → span test (run ++ rest) ≡ (run, rest)
unfolding span
span-append test [] [] h s = refl
span-append test [] (c ∷ rest) h s = rw s refl
span-append test (c ∷ run) rest h s = rw (span-append test run rest h.1 s, h.0) refl

-- What a span is.
span-parts :
    (test : Char → Bool) (cs : List Char)
    → (cs ≡ (span test cs).0 ++ (span test cs).1)
      × All (λ c. test c ≡ true) (span test cs).0
      × Stops test (span test cs).1
unfolding span
span-parts test [] = (refl, tt, tt)
span-parts test (c ∷ cs) = elim (Bool-cases (test c)) [
  | inl hit ↦ let (e, a, s) = span-parts test cs in rw hit (ap (◌∷◌ c) e, (hit, a), s)
  | inr miss ↦ rw miss (refl, tt, miss)
]

is_word-All : (w : List Char) → is_word w ≡ true → (w ≢ []) × All (λ c. is_mark c ≡ true) w
unfolding is_word
is_word-All [] h = cc
is_word-All (c ∷ []) h = (λ e. cc, (h, tt))
is_word-All (c ∷ d ∷ cs) h =
    let (first, later) = &&-eq-true (is_mark c) (is_word (d ∷ cs)) h in
    let (some_mark, marks) = is_word-All (d ∷ cs) later in (λ e. cc, (first, marks))

pub All-is_word : (w : List Char) → w ≢ [] → All (λ c. is_mark c ≡ true) w → is_word w ≡ true
unfolding is_word
All-is_word [] h a = absurd (h refl)
All-is_word (c ∷ []) h a = a.0
All-is_word (c ∷ d ∷ cs) h a = rw (a.0, All-is_word (d ∷ cs) (λ e. cc) a.1) refl

abbrev pub IsWord : List Char → Type 0
IsWord w = (w ≢ []) × All (λ c. is_mark c ≡ true) w

-- One way to match `\Aset\s+(\S+)(\s|=)(\S+)\z`.
pub record MatchesSet (line v w : List Char) : Type 0 where
  pub blanks : List Char
  pub sep : Char
  pub split : line ≡ chars "set" ++ (blanks ++ (v ++ (sep ∷ w)))
  pub some_blank : blanks ≢ []
  pub all_blank : All (λ c. is_blank c ≡ true) blanks
  pub variable : IsWord v
  pub value : IsWord w
  pub separates : (is_blank sep || is_equal sep) ≡ true

-- An `=` splits the text, with something behind it.
abbrev SplitsAt : List Char → List Char → List Char → Type 0
SplitsAt cs v w = (e : Char) × (cs ≡ v ++ (e ∷ w)) × (is_equal e ≡ true) × (w ≢ [])

abbrev pub Cut : Type 0
Cut = List Char × List Char

pub Cut-parts : (p q : Cut) → some p ≡ some q → (p.0 ≡ q.0) × (p.1 ≡ q.1)
Cut-parts p q h = (ap (λ r. r.0) (some_inj h), ap (λ r. r.1) (some_inj h))

cut_equal-SplitsAt :
    (c : Char) (cs v w : List Char) (o : Option (List Char × List Char))
    → ((v' w' : List Char) → o ≡ some (v', w') → SplitsAt cs v' w')
    → cut_equal c cs o ≡ some (v, w)
    → SplitsAt (c ∷ cs) v w
unfolding cut_equal
cut_equal-SplitsAt c cs v w (some (v', w')) later h =
    let (e, split, is_e, some_w) = later v' w' refl in
    let (same_v, same_w) = Cut-parts (c ∷ v', w') (v, w) h in
    (e, cc (split, same_v, same_w), is_e, λ none_left. some_w (same_w ∙ none_left))
cut_equal-SplitsAt c [] v w none later h = cc
cut_equal-SplitsAt c (d ∷ ds) v w none later h = elim (Bool-cases (is_equal c)) [
  | inl hit ↦
      let (same_v, same_w) = Cut-parts ([], d ∷ ds) (v, w) (rw hit at h) in
      (c, cc (same_v, same_w), hit, λ none_left. cc (same_w ∙ none_left))
  | inr miss ↦ absurd (ground arith)
]

last_equal-SplitsAt : (cs v w : List Char) → last_equal cs ≡ some (v, w) → SplitsAt cs v w
unfolding last_equal
last_equal-SplitsAt [] v w h = cc
last_equal-SplitsAt (c ∷ cs) v w h =
    cut_equal-SplitsAt c cs v w (last_equal cs) (last_equal-SplitsAt cs) h

pub last_equal-longest :
    (v : List Char) (e : Char) (w : List Char)
    → is_equal e ≡ true
    → w ≢ []
    → (v' : List Char) × (w' : List Char) × (last_equal (v ++ (e ∷ w)) ≡ some (v', w'))
      × (length v ≤ length v')
unfolding last_equal cut_equal
last_equal-longest [] e [] is_e some_w = absurd (some_w refl)
last_equal-longest [] e (d ∷ ds) is_e some_w = elim (Option-cases (last_equal (d ∷ ds))) [
  | inl none_left ↦ ([], d ∷ ds, rw (none_left, cut_equal, is_e) refl, omega arith)
  | inr ((v', w'), found) ↦ (e ∷ v', w', rw (found, cut_equal) refl, omega arith)
]
last_equal-longest (c ∷ v) e w is_e some_w =
    let (v', w', found, longer) = last_equal-longest v e w is_e some_w in
    (c ∷ v', w', rw (found, cut_equal) refl, omega arith)

-- A variable and a value with what separates them.
abbrev Separated : List Char → List Char → List Char → Type 0
Separated cs v w =
    (sep : Char) × (cs ≡ v ++ (sep ∷ w))
    × IsWord v
    × IsWord w
    × ((is_blank sep || is_equal sep) ≡ true)

named-some :
    (o : Option Cut) (v w : List Char) → named o ≡ some (v, w) → (o ≡ some (v, w)) × (v ≢ [])
unfolding named
named-some none v w h = cc
named-some (some ([], w')) v w h = cc
named-some (some (c ∷ v', w')) v w h = (h, λ e. cc (e, (Cut-parts (c ∷ v', w') (v, w) h).0))

pub some-named : (v w : List Char) → v ≢ [] → named (some (v, w)) ≡ some (v, w)
unfolding named
some-named [] w h = absurd (h refl)
some-named (c ∷ v) w h = refl

All-cut :
    (test : Char → Bool) (v w : List Char) (e : Char)
    → All (λ c. test c ≡ true) (v ++ (e ∷ w))
    → All (λ c. test c ≡ true) v × All (λ c. test c ≡ true) w
All-cut test [] w e h = (tt, h.1)
All-cut test (c ∷ v) w e h = let (in_v, in_w) = All-cut test v w e h.1 in ((h.0, in_v), in_w)

variable_and_value-Separated :
    (p : Cut) (v w : List Char)
    → All (λ c. is_mark c ≡ true) p.0
    → Stops is_mark p.1
    → variable_and_value p ≡ some (v, w)
    → Separated (p.0 ++ p.1) v w
unfolding variable_and_value
variable_and_value-Separated (run, []) v w marks stops h =
    let (cut, some_v) = named-some (last_equal run) v w h in
    let (e, split, is_e, some_w) = last_equal-SplitsAt run v w cut in
    let (in_v, in_w) =
      All-cut is_mark v w e (subst (λ cs. All (λ c. is_mark c ≡ true) cs) split marks) in
    (e, append-nil run ∙ split, (some_v, in_v), (some_w, in_w), ground arith)
variable_and_value-Separated (run, sep ∷ rest) v w marks stops h =
    elim (Bool-cases (is_word rest)) [
      | inl word ↦
          let (same_cut, some_v) = named-some (some (run, rest)) v w (rw word at h) in
          let (same_v, same_w) = Cut-parts (run, rest) (v, w) same_cut in
          (
            sep,
            cc (same_v, same_w),
            (some_v, subst (λ cs. All (λ c. is_mark c ≡ true) cs) same_v marks),
            subst IsWord same_w (is_word-All rest word),
            ground arith,
          )
      | inr no_word ↦ absurd (ground arith)
    ]

-- The blanks that `behind_blanks` takes.
abbrev pub Blanks : List Char → Type 0
Blanks bs = (bs ≢ []) × All (λ c. is_blank c ≡ true) bs

behind-some : (p : Cut) (cs : List Char) → behind p ≡ some cs → (p.0 ≢ []) × (p.1 ≡ cs)
unfolding behind
behind-some ([], rest) cs h = cc
behind-some (b ∷ bs, rest) cs h = (λ e. cc, some_inj h)

behind_blanks-some :
    (o : Option (List Char)) (cs : List Char)
    → behind_blanks o ≡ some cs
    → (rest : List Char) × (bs : List Char) × (o ≡ some rest) × (rest ≡ bs ++ cs) × Blanks bs
unfolding behind_blanks
behind_blanks-some none cs h = cc
behind_blanks-some (some rest) cs h =
    let (some_blank, tail) = behind-some (span is_blank rest) cs h in
    let (split, blank, stops) = span-parts is_blank rest in
    (
      rest,
      (span is_blank rest).0,
      refl,
      split ∙ ap (λ t. (span is_blank rest).0 ++ t) tail,
      (some_blank, blank),
    )

pub set_arguments-MatchesSet :
    (line v w : List Char) → set_arguments line ≡ some (v, w) → MatchesSet line v w
unfolding set_arguments assignment
set_arguments-MatchesSet line v w h =
    elim (Option-cases (behind_blanks (strip (chars "set") line))) [
      | inl nothing ↦ absurd (ground arith)
      | inr (cs, e) ↦
          let (rest, bs, stripped, split, (some_blank, blank)) = behind_blanks-some _ cs e in
          let (parts, marks, stops) = span-parts is_mark cs in
          let (sep, cut, v_word, w_word, separates) =
            variable_and_value-Separated (span is_mark cs) v w marks stops (rw e at h) in
          record {
            blanks = bs;
            sep = sep;
            split =
                strip-some (chars "set") line rest stripped
                ∙ ap (λ t. chars "set" ++ t) (split ∙ ap (λ t. bs ++ t) (parts ∙ cut));
            some_blank = some_blank;
            all_blank = blank;
            variable = v_word;
            value = w_word;
            separates = separates;
          }
    ]
