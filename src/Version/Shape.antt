-- ===== src/Version/Shape.antt =====
-- `match_version` finds the groups of exactly the texts that the expression describes.
use netorcai.Prelude.{
  some_inj, ℕ, ◌≤◌, ◌≡◌, refl, subst, ◌∙◌, List, [], ◌∷◌, ◌++◌, true, false, Option, none, some,
  All, arith, length,
}
use netorcai.Version.{
  is_digit, span_digits, digits_of, scan_digits, scan_dot, scan_end, match_version, ◌>>=◌,
}
use mathlib.Core.Path.{ap₂}
use mathlib.Core.List.{append-nil}

abbrev pub IsDigits : List ℕ → Type 0
IsDigits cs = All (λ c. is_digit c ≡ true) cs × (1 ≤ length cs)

-- MAJOR.MINOR.PATCH
pub record IsVersion (cs major minor patch : List ℕ) : Type 0 where
  pub major_digits : IsDigits major
  pub minor_digits : IsDigits minor
  pub patch_digits : IsDigits patch
  pub parts : cs ≡ major ++ (b'.' ∷ minor ++ (b'.' ∷ patch))

span_digits-splits : (cs : List ℕ) → cs ≡ (span_digits cs).0 ++ (span_digits cs).1
unfolding span_digits
span_digits-splits [] = refl
span_digits-splits (c ∷ cs) = ground (arith, span_digits-splits cs)

span_digits-All : (cs : List ℕ) → All (λ c. is_digit c ≡ true) (span_digits cs).0
unfolding span_digits
span_digits-All [] = tt
span_digits-All (c ∷ cs) = ground (arith, span_digits-All cs)

-- A text that does not begin with a digit.
abbrev Stops : List ℕ → Type 0
Stops [] = Unit {0}
Stops (c ∷ cs) = is_digit c ≡ false

span_digits-append :
    (ds rest : List ℕ)
    → All (λ c. is_digit c ≡ true) ds
    → Stops rest
    → span_digits (ds ++ rest) ≡ (ds, rest)
unfolding span_digits
span_digits-append [] [] h s = refl
span_digits-append [] (c ∷ cs) h s = ground arith
span_digits-append (d ∷ ds) rest h s = ground (arith, span_digits-append ds rest h.1 s)

scan_digits-append :
    (ds rest : List ℕ) → IsDigits ds → Stops rest → scan_digits (ds ++ rest) ≡ some (ds, rest)
unfolding scan_digits
scan_digits-append [] rest h s = absurd (omega arith)
scan_digits-append (d ∷ ds) rest h s = rw (span_digits-append (d ∷ ds) rest h.0 s, digits_of)

digits_of-some :
    (p : List ℕ × List ℕ) {ds rest : List ℕ}
    → digits_of p ≡ some (ds, rest)
    → (p.0 ≡ ds) × (p.1 ≡ rest) × (1 ≤ length ds)
unfolding digits_of
digits_of-some ([], rest) h = cc
digits_of-some (c ∷ cs, rest) h = ground arith

scan_digits-some :
    (cs : List ℕ) {ds rest : List ℕ}
    → scan_digits cs ≡ some (ds, rest)
    → IsDigits ds × (cs ≡ ds ++ rest)
unfolding scan_digits
scan_digits-some cs h =
    let (run, after, long) = digits_of-some (span_digits cs) h in
    (
      (subst (All λ c. is_digit c ≡ true) run (span_digits-All cs), long),
      span_digits-splits cs ∙ ap₂ ◌++◌ run after,
    )

scan_dot-some : (cs : List ℕ) {rest : List ℕ} → scan_dot cs ≡ some rest → cs ≡ b'.' ∷ rest
unfolding scan_dot
scan_dot-some [] h = cc
scan_dot-some (c ∷ cs) h = ground arith

scan_end-some : (cs : List ℕ) {u : Unit {0}} → scan_end cs ≡ some u → cs ≡ []
unfolding scan_end
scan_end-some [] h = refl
scan_end-some (c ∷ cs) h = cc

>>=-eq-some {ℓ κ} :
    {A : Type ℓ} {B : Type κ} (m : Option A) (f : A → Option B) {b : B}
    → (m >>= f) ≡ some b
    → (a : A) × (m ≡ some a) × (f a ≡ some b)
>>=-eq-some none f h = cc
>>=-eq-some (some a) f h = (a, refl, h)

scan_digits_all : (ds : List ℕ) → IsDigits ds → scan_digits ds ≡ some (ds, [])
scan_digits_all ds h =
    subst (λ x. scan_digits x ≡ some (ds, [])) (append-nil ds) (scan_digits-append ds [] h tt)

assemble :
    (cs a b c r₁ r₂ r₃ r₄ r₅ : List ℕ)
    → IsDigits a × (cs ≡ a ++ r₁)
    → r₁ ≡ b'.' ∷ r₂
    → IsDigits b × (r₂ ≡ b ++ r₃)
    → r₃ ≡ b'.' ∷ r₄
    → IsDigits c × (r₄ ≡ c ++ r₅)
    → r₅ ≡ []
    → IsVersion cs a b c
assemble cs a b c r₁ r₂ r₃ r₄ r₅ p q p' q' p'' q'' = record {
  major_digits = p.0;
  minor_digits = p'.0;
  patch_digits = p''.0;
  parts = rw (p.1, q, p'.1, q', p''.1, q'', append-nil) refl;
}

-- The groups of a match are three runs of digits that make up the text with the two dots.
pub match_version-some :
    (cs : List ℕ) {major minor patch : List ℕ}
    → match_version cs ≡ some (major, minor, patch)
    → IsVersion cs major minor patch
unfolding match_version
match_version-some cs h =
    let ((a, r₁), e₁, h₁) = >>=-eq-some (scan_digits cs) _ h in
    let (r₂, e₂, h₂) = >>=-eq-some (scan_dot r₁) _ h₁ in
    let ((b, r₃), e₃, h₃) = >>=-eq-some (scan_digits r₂) _ h₂ in
    let (r₄, e₄, h₄) = >>=-eq-some (scan_dot r₃) _ h₃ in
    let ((c, r₅), e₅, h₅) = >>=-eq-some (scan_digits r₄) _ h₄ in
    let (u, e₆, h₆) = >>=-eq-some (scan_end r₅) _ h₅ in
    subst (λ t. IsVersion cs t.0 t.1 t.2) (some_inj h₆)
      (assemble cs a b c r₁ r₂ r₃ r₄ r₅ (scan_digits-some cs e₁) (scan_dot-some r₁ e₂)
        (scan_digits-some r₂ e₃) (scan_dot-some r₃ e₄) (scan_digits-some r₄ e₅)
        (scan_end-some r₅ e₆))

-- Every text of that form matches, and its groups are those three runs.
pub match_version-IsVersion :
    (cs major minor patch : List ℕ)
    → IsVersion cs major minor patch
    → match_version cs ≡ some (major, minor, patch)
unfolding match_version scan_dot scan_end
match_version-IsVersion cs major minor patch v = rw (
  v.parts,
  scan_digits-append major (b'.' ∷ minor ++ (b'.' ∷ patch)) v.major_digits refl,
  scan_digits-append minor (b'.' ∷ patch) v.minor_digits refl,
  scan_digits_all patch v.patch_digits,
)
