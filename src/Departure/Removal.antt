-- ===== src/Departure/Removal.antt =====
-- What is left of the lists when a client goes.
use mathlib.Core.List.{Perm}
use netorcai.Prelude.{
  ℕ, ◌≡◌, refl, sym, subst, ◌∙◌, false, ◌≢◌, ◌⊎◌, inl, inr, List, [], ◌∷◌, ◌++◌, some, get_elem?,
  set, arith, false, ==_iff, ◌==◌, Option-cases,
}
use netorcai.Outcome.{returns, returns_inj}
use netorcai.Slices.{find_index, remove_at}
use netorcai.Slices.Moves.{
  find_index-some, find_index-none, remove_at-append, set-Perm, front_and_last,
}
use netorcai.State.{ClientId}
use netorcai.Departure.{remove, cut}

cut_found :
    (conn : ClientId) (clients : List ClientId) (i : ℕ)
    → get_elem? clients i ≡ some conn
    → (left : List ClientId) × (cut (some i) clients ≡ returns left) × Perm (conn ∷ left) clients
unfolding cut
cut_found conn clients i at_i =
    let (front, l, split) = front_and_last clients i at_i in
    let at_i' : get_elem? (front ++ (l ∷ [])) i ≡ some conn =
      subst (λ xs. get_elem? xs i ≡ some conn) split at_i in
    (
      set front i l,
      subst (λ xs. remove_at i xs ≡ returns (set front i l)) (sym split)
          (remove_at-append front l conn i at_i'),
      subst (Perm (conn ∷ set front i l)) (sym split) (set-Perm front l conn i at_i'),
    )

-- Removing a client returns: its list loses that one client and nothing else, or had no such client
-- and stays.
pub remove_cases :
    (conn : ClientId) (clients : List ClientId)
    → (left : List ClientId) × (remove conn clients ≡ returns left)
      × (Perm (conn ∷ left) clients
          ⊎ ((left ≡ clients) × ((i : ℕ) → get_elem? clients i ≢ some conn)))
unfolding remove
remove_cases conn clients = elim (Option-cases (find_index (λ c. c == conn) clients)) [
  | inl e ↦
      (clients, rw (e, cut), inr (refl, λ i q. absent i q (find_index-none _ clients e i conn q)))
  | inr (i, e) ↦
      let (a, at_i, hit) = find_index-some (λ c. c == conn) clients i e in
      let (left, run, same_rest) = cut_found conn clients i (rw (← (==_iff a conn).0 hit) at_i) in
      (left, rw e run, inl same_rest)
]
  where
    absent : (i : ℕ) → get_elem? clients i ≡ some conn → (conn == conn) ≡ false → ⊥
    absent i q miss = ground arith

-- `left` is `clients` without `conn`, or `clients` if `conn` is not there.
abbrev pub Lost : ClientId → List ClientId → List ClientId → Type 0
Lost conn clients left =
    Perm (conn ∷ left) clients ⊎ ((left ≡ clients) × ((i : ℕ) → get_elem? clients i ≢ some conn))

pub remove-Lost :
    (conn : ClientId) (clients left : List ClientId)
    → remove conn clients ≡ returns left
    → Lost conn clients left
remove-Lost conn clients left h =
    let (left', run, lost) = remove_cases conn clients in
    subst (Lost conn clients) (returns_inj (sym run ∙ h)) lost
