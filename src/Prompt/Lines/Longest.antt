-- ===== src/Prompt/Lines/Longest.antt =====
-- The scanner of `set` finds the match that the regular expression engine prefers.
use Prim.Native.Char.{Char}
use mathlib.Core.List.{append-nil}
use netorcai.Prelude.{
  ◌≤◌, ◌≡◌, refl, ap, sym, subst, ◌∙◌, ◌≢◌, inl, inr, List, [], ◌∷◌, ◌++◌, length, true, false,
  ◌||◌, none, some, All, All-append, Bool-cases, arith,
}
use netorcai.Prompt.Lines.{
  is_blank, is_mark, is_equal, span, behind, behind_blanks, variable_and_value, assignment,
  set_arguments,
}
use netorcai.Prompt.Lines.Patterns.{
  Cut-parts, Stops, span-append, All-is_word, last_equal-longest, IsWord, MatchesSet, some-named,
  Blanks, set_arguments-MatchesSet,
}

behind_blanks-append :
    (bs cs : List Char) → Blanks bs → Stops is_blank cs → behind_blanks (some (bs ++ cs)) ≡ some cs
unfolding behind_blanks behind
behind_blanks-append [] cs b stops = absurd (b.0 refl)
behind_blanks-append (b ∷ bs) cs blanks stops =
    rw (span-append is_blank (b ∷ bs) cs blanks.1 stops) refl

mark-not_blank : (c : Char) → is_mark c ≡ true → is_blank c ≡ false
mark-not_blank c h = ground arith

word-Stops : (v rest : List Char) → IsWord v → Stops is_blank (v ++ rest)
word-Stops [] rest h = absurd (h.0 refl)
word-Stops (c ∷ v) rest h = mark-not_blank c h.1.0

longer-some : (v v' : List Char) → v ≢ [] → length v ≤ length v' → v' ≢ []
longer-some [] v' h le e = h refl
longer-some (c ∷ v) [] h le e = omega arith
longer-some (c ∷ v) (d ∷ v') h le e = cc

-- The cut at an `=`.
equal-longest :
    (v : List Char) (sep : Char) (w : List Char)
    → IsWord v
    → IsWord w
    → is_mark sep ≡ true
    → is_equal sep ≡ true
    → (v' : List Char) × (w' : List Char) × (assignment (some (v ++ (sep ∷ w))) ≡ some (v', w'))
      × (length v ≤ length v')
unfolding assignment variable_and_value
equal-longest v sep w v_word w_word mark is_e =
    let (v', w', cut, longer) = last_equal-longest v sep w is_e w_word.0 in
    let marks : All (λ c. is_mark c ≡ true) (v ++ (sep ∷ w)) =
      All-append (λ c. is_mark c ≡ true) v (sep ∷ w) v_word.1 (mark, w_word.1) in
    let whole : span is_mark (v ++ (sep ∷ w)) ≡ (v ++ (sep ∷ w), []) =
      subst (λ cs. span is_mark cs ≡ (v ++ (sep ∷ w), [])) (append-nil (v ++ (sep ∷ w)))
        (span-append is_mark (v ++ (sep ∷ w)) [] marks tt) in
    (
      v',
      w',
      ap variable_and_value whole ∙ rw cut (some-named v' w' (longer-some v v' v_word.0 longer)),
      longer,
    )

blank-longest :
    (v : List Char) (sep : Char) (w : List Char)
    → IsWord v
    → IsWord w
    → is_mark sep ≡ false
    → assignment (some (v ++ (sep ∷ w))) ≡ some (v, w)
unfolding assignment variable_and_value
blank-longest v sep w v_word w_word blank =
    ap variable_and_value (span-append is_mark v (sep ∷ w) v_word.1 blank)
    ∙ rw (All-is_word w w_word.0 w_word.1) (some-named v w v_word.0)

assignment-longest :
    (v : List Char) (sep : Char) (w : List Char)
    → IsWord v
    → IsWord w
    → (is_blank sep || is_equal sep) ≡ true
    → (v' : List Char) × (w' : List Char) × (assignment (some (v ++ (sep ∷ w))) ≡ some (v', w'))
      × (length v ≤ length v')
assignment-longest v sep w v_word w_word h = elim (Bool-cases (is_mark sep)) [
  | inl mark ↦ equal-longest v sep w v_word w_word mark (ground arith)
  | inr blank ↦ (v, w, blank-longest v sep w v_word w_word blank, omega arith)
]

MatchesSet-found :
    (line v w : List Char)
    → MatchesSet line v w
    → (v' : List Char) × (w' : List Char) × (set_arguments line ≡ some (v', w'))
      × (length v ≤ length v')
unfolding set_arguments
MatchesSet-found line v w m =
    let (v', w', found, longer) = assignment-longest v m.sep w m.variable m.value m.separates in
    (
      v',
      w',
      rw (m.split) (
          ap assignment (
            behind_blanks-append m.blanks (v ++ (m.sep ∷ w)) (m.some_blank, m.all_blank)
              (word-Stops v (m.sep ∷ w) m.variable))
          ∙ found),
      longer,
    )

-- What is found is a match, of those with the longest variable; what is not found has none.
abbrev pub FindsLongest : List Char → Type 0
FindsLongest line =
    ((v w : List Char)
      → set_arguments line ≡ some (v, w)
      → MatchesSet line v w × ((v' w' : List Char) → MatchesSet line v' w' → length v' ≤ length v))
    × (set_arguments line ≡ none → (v w : List Char) → MatchesSet line v w → ⊥)

-- The scanner of `set` yields a variable and a value exactly if the regular expression matches the
-- line, and then they are a match whose variable is the longest one that a match has.
pub set_arguments-FindsLongest : (line : List Char) → FindsLongest line
set_arguments-FindsLongest line = (
  λ v w h. (
    set_arguments-MatchesSet line v w h,
    λ v' w' m.
        let (v'', w'', found, longer) = MatchesSet-found line v' w' m in
        subst (λ p. length v' ≤ length p) (Cut-parts (v'', w'') (v, w) (sym found ∙ h)).0 longer,
  ),
  λ h v w m. let (v', w', found, longer) = MatchesSet-found line v w m in cc (sym h ∙ found),
)
