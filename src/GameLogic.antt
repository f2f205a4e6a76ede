-- ===== src/GameLogic.antt =====
-- control_gl.go: the game logic's goroutine.
pub mod Sorting
pub mod Numbering
pub mod Traffic
use netorcai.Prelude.{ℕ, zero, suc, ◌+◌, List, [], ◌∷◌, ◌++◌, map, length, leb, if◌then◌else◌}
use netorcai.Outcome.{Outcome, returns, panics, ◌>>=◌}
use netorcai.State.{ClientId}

-- A player with its `playerID`.
abbrev pub Numbered : Type 0
Numbered = ClientId × ℕ

-- `splayer.playerID = splayerIndex`
special_player_ids : ℕ → List ClientId → List Numbered
special_player_ids index [] = []
special_player_ids index (c ∷ cs) = (c, index) ∷ special_player_ids (suc index) cs

-- `player.playerID = playerIDs[playerIndex] + initialNbSpecialPlayers`; the index is out of range
-- if the permutation is too short.
player_ids : ℕ → List ℕ → List ClientId → Outcome (List Numbered)
player_ids nb_special ids [] = returns []
player_ids nb_special [] (c ∷ cs) = panics
player_ids nb_special (i ∷ ids) (c ∷ cs) = do
  rest ← player_ids nb_special ids cs
  returns ((c, i + nb_special) ∷ rest)

-- The numbers of `allPlayers`; `permutation` is what `rand.Perm(len(players))` returned.
unfoldable pub number_players : List ℕ → List ClientId → List ClientId → Outcome (List Numbered)
unfolding player_ids special_player_ids
number_players permutation players special_players = do
  numbered ← player_ids (length special_players) permutation players
  returns (numbered ++ special_player_ids 0 special_players)

-- `sort.Slice` by `PlayerID`.
insert_by_id : Numbered → List Numbered → List Numbered
insert_by_id p [] = p ∷ []
insert_by_id p (q ∷ qs) = if leb p.1 q.1 then p ∷ q ∷ qs else q ∷ insert_by_id p qs

unfoldable pub sort_by_id : List Numbered → List Numbered
unfolding insert_by_id
sort_by_id [] = []
sort_by_id (p ∷ ps) = insert_by_id p (sort_by_id ps)
