-- ===== src/GameLogic/Numbering.antt =====
-- The identifiers that the players are given at the start of a game.
use mathlib.Core.Path.{ap₂}
use mathlib.Core.List.{Perm, perm_append_comm, map-append}
use mathlib.Core.List.Perm
use netorcai.Prelude.{
  ℕ, zero, suc, ◌+◌, ◌≤◌, ◌≡◌, refl, sym, ap, ◌∙◌, subst, List, [], ◌∷◌, ◌++◌, map, length, All,
  arith,
}
use netorcai.Outcome.{returns}
use netorcai.State.{ClientId}
use netorcai.GameLogic.{Numbered, special_player_ids, player_ids, number_players, sort_by_id}
use netorcai.GameLogic.Sorting.{
  IsSorted, ids, IsSorted-unique, sort_by_id-Perm, sort_by_id-IsSorted,
}

-- n numbers from `start` on.
abbrev pub range : ℕ → ℕ → List ℕ
range start zero = []
range start (suc n) = start ∷ range (suc start) n

All-range : (a start n : ℕ) → a ≤ start → All (λ y. a ≤ y) (range start n)
All-range a start zero h = tt
All-range a start (suc n) h = (h, All-range a (suc start) n (omega arith))

range-IsSorted : (start n : ℕ) → IsSorted (range start n)
range-IsSorted start zero = tt
range-IsSorted start (suc n) =
    (All-range start (suc start) n (omega arith), range-IsSorted (suc start) n)

range-append : (start m n : ℕ) → range start m ++ range (start + m) n ≡ range start (m + n)
range-append start zero n = ap₂ range (omega arith) (omega arith)
range-append start (suc m) n =
    ap (◌∷◌ start)
      (ap (λ k. range (suc start) m ++ range k n) (omega arith) ∙ range-append (suc start) m n)
    ∙ ap (range start) shift
  where
    shift : suc (m + n) ≡ suc m + n
    shift = omega arith

map-range : (start k n : ℕ) → map (λ i. i + k) (range start n) ≡ range (start + k) n
map-range start k zero = refl
map-range start k (suc n) =
    ap (◌∷◌ (start + k)) (map-range (suc start) k n ∙ ap (λ s. range s n) (omega arith))

special_player_ids-ids :
    (index : ℕ) (cs : List ClientId) → ids (special_player_ids index cs) ≡ range index (length cs)
unfolding special_player_ids
special_player_ids-ids index [] = refl
special_player_ids-ids index (c ∷ cs) = ap (◌∷◌ index) (special_player_ids-ids (suc index) cs)

player_ids-ids :
    (k : ℕ) (permutation : List ℕ) (cs : List ClientId)
    → length permutation ≡ length cs
    → (numbered : List Numbered) × (player_ids k permutation cs ≡ returns numbered)
      × (ids numbered ≡ map (λ i. i + k) permutation)
      × (map (λ p. p.0) numbered ≡ cs)
unfolding player_ids
player_ids-ids k [] [] h = ([], refl, refl, refl)
player_ids-ids k (i ∷ is) [] h = absurd (omega arith)
player_ids-ids k [] (c ∷ cs) h = absurd (omega arith)
player_ids-ids k (i ∷ is) (c ∷ cs) h =
    let (rest, run, values, owners) = player_ids-ids k is cs (omega arith) in
    ((c, i + k) ∷ rest, rw run, ap (◌∷◌ (i + k)) values, ap (◌∷◌ c) owners)

special_player_ids-owners :
    (index : ℕ) (cs : List ClientId) → map (λ p. p.0) (special_player_ids index cs) ≡ cs
unfolding special_player_ids
special_player_ids-owners index [] = refl
special_player_ids-owners index (c ∷ cs) = ap (◌∷◌ c) (special_player_ids-owners (suc index) cs)

-- The special players' numbers and the shuffled ones together.
shuffled-range :
    (permutation : List ℕ) (n k : ℕ)
    → Perm permutation (range 0 n)
    → Perm (map (λ i. i + k) permutation ++ range 0 k) (range 0 (k + n))
shuffled-range permutation n k p = Perm.trans (Perm.append (Perm.map (λ i. i + k) p) Perm.rfl) (
    rw (map-range 0 k n) (
      Perm.trans (perm_append_comm (range (0 + k) n) (range 0 k))
        (rw (range-append 0 k n) Perm.rfl)))

-- Whatever permutation is drawn, the players and special players get the identifiers 0, 1, … up to
-- their number, each once: the sorted list holds at each position the player of that identifier.
-- No index is out of range.
pub number_players-ids :
    (permutation : List ℕ) (players special_players : List ClientId)
    → length permutation ≡ length players
    → Perm permutation (range 0 (length players))
    → (numbered : List Numbered) × (number_players permutation players special_players
        ≡ returns numbered)
      × (map (λ p. p.0) numbered ≡ players ++ special_players)
      × (ids (sort_by_id numbered) ≡ range 0 (length special_players + length players))
unfolding number_players
number_players-ids permutation players special_players h p =
    let k = length special_players in
    let (numbered, run, values, owners) = player_ids-ids k permutation players h in
    let all : List Numbered = numbered ++ special_player_ids 0 special_players in
    let all_ids : ids all ≡ map (λ i. i + k) permutation ++ range 0 k =
      map-append (λ p. p.1) numbered (special_player_ids 0 special_players)
      ∙ ap₂ ◌++◌ values (special_player_ids-ids 0 special_players) in
    (
      all,
      rw run refl,
      map-append (λ p. p.0) numbered (special_player_ids 0 special_players)
          ∙ ap₂ ◌++◌ owners (special_player_ids-owners 0 special_players),
      IsSorted-unique _ _ (sort_by_id-IsSorted all) (range-IsSorted 0 (k + length players)) (
          Perm.trans (Perm.map (λ p. p.1) (sort_by_id-Perm all)) (
            subst (λ l. Perm l (range 0 (k + length players))) (sym all_ids)
              (shuffled-range permutation (length players) k p))),
    )
