-- ===== src/Slices/Moves.antt =====
-- What the swap and the removal do to a slice.
use mathlib.Core.List.{Perm, perm_append_singleton}
use mathlib.Core.List.Perm
use netorcai.Prelude.{
  ℕ, zero, suc, ◌-◌, ◌≡◌, refl, ap, List, [], ◌∷◌, ◌++◌, Bool, true, false, none, some, get_elem?,
  set, length, length-append, take-length_append, arith, sym, some_inj,
}
use netorcai.Outcome.{returns}
use netorcai.Slices.{find_index, swap_last, remove_at}

module _ {ℓ} {A : Type ℓ} where
  -- The entry that is found passes the test, and it is in range.
  pub find_index-some :
      (test : A → Bool) (xs : List A) (i : ℕ)
      → find_index test xs ≡ some i
      → (a : A) × (get_elem? xs i ≡ some a) × (test a ≡ true)
  unfolding find_index
  find_index-some test [] i h = cc
  find_index-some test (x ∷ xs) zero h = (x, refl, ground arith)
  find_index-some test (x ∷ xs) (suc i) h = find_index-some test xs i (ground arith)

  -- If none is found, no entry passes.
  pub find_index-none :
      (test : A → Bool) (xs : List A)
      → find_index test xs ≡ none
      → (i : ℕ) (a : A) → get_elem? xs i ≡ some a
      → test a ≡ false
  unfolding find_index
  find_index-none test [] h i a e = cc
  find_index-none test (x ∷ xs) h zero a e = ground arith
  find_index-none test (x ∷ xs) h (suc i) a e =
      ground (arith, find_index-none test xs (ground arith) i a e)

  get_elem?-last : (front : List A) (l : A) → get_elem? (front ++ (l ∷ [])) (length front) ≡ some l
  get_elem?-last [] l = refl
  get_elem?-last (x ∷ xs) l = get_elem?-last xs l

  pub set-last :
      (front : List A) (l a : A) → set (front ++ (l ∷ [])) (length front) a ≡ front ++ (a ∷ [])
  set-last [] l a = refl
  set-last (x ∷ xs) l a = ap (◌∷◌ x) (set-last xs l a)

  pub length-last : (front : List A) (l : A) → length (front ++ (l ∷ [])) - 1 ≡ length front
  length-last front l = omega (arith, length-append front (l ∷ []))

  set-append :
      (front : List A) (l a : A) (i : ℕ)
      → get_elem? (front ++ (l ∷ [])) i ≡ some a
      → set (front ++ (a ∷ [])) i l ≡ set front i l ++ (a ∷ [])
  set-append [] l a zero e = ap (λ x. x ∷ []) (some_inj e)
  set-append [] l a (suc i) e = refl
  set-append (x ∷ xs) l a zero e = refl
  set-append (x ∷ xs) l a (suc i) e = ap (◌∷◌ x) (set-append xs l a i e)

  -- The entry `i` of the slice goes to the end, and the last one takes its place.
  pub swap_last-append :
      (front : List A) (l a : A) (i : ℕ)
      → get_elem? (front ++ (l ∷ [])) i ≡ some a
      → swap_last i (front ++ (l ∷ [])) ≡ returns (set front i l ++ (a ∷ []))
  unfolding swap_last
  swap_last-append front l a i e =
      rw (e, length-last front l, get_elem?-last front l, set-last front l a)
        (ap returns (set-append front l a i e))

  pub remove_at-append :
      (front : List A) (l a : A) (i : ℕ)
      → get_elem? (front ++ (l ∷ [])) i ≡ some a
      → remove_at i (front ++ (l ∷ [])) ≡ returns (set front i l)
  unfolding remove_at
  remove_at-append front l a i e = rw (
    swap_last-append front l a i e,
    length-last (set front i l) a,
    take-length_append (set front i l) (a ∷ []),
  )

  -- Taking `a` out at `i` and filling the gap with the last entry loses nothing else.
  pub set-Perm :
      (front : List A) (l a : A) (i : ℕ)
      → get_elem? (front ++ (l ∷ [])) i ≡ some a
      → Perm (a ∷ set front i l) (front ++ (l ∷ []))
  set-Perm [] l a zero e = Perm.cons' (sym (some_inj e)) Perm.rfl
  set-Perm [] l a (suc i) e = cc
  set-Perm (x ∷ xs) l a zero e =
      rw (sym (some_inj e)) (Perm.cons x (Perm.symm (perm_append_singleton l xs)))
  set-Perm (x ∷ xs) l a (suc i) e =
      Perm.trans (Perm.swap x a (set xs i l)) (Perm.cons x (set-Perm xs l a i e))

  -- A slice that holds an entry is a front and a last entry.
  pub front_and_last :
      (xs : List A) (i : ℕ) {a : A}
      → get_elem? xs i ≡ some a
      → (front : List A) × (l : A) × (xs ≡ front ++ (l ∷ []))
  front_and_last [] i e = cc
  front_and_last (x ∷ []) i e = ([], x, refl)
  front_and_last (x ∷ y ∷ xs) i e =
      let (front, l, split) = front_and_last (y ∷ xs) 0 refl in (x ∷ front, l, ap (◌∷◌ x) split)
