-- ===== src/Cleanup/Waits.antt =====
-- The end of a client that waits for the order to terminate.
use netorcai.Prelude.{◌≡◌, refl, List, [], ◌∷◌, ◌++◌, map, some}
use netorcai.State.{Client, kicked, Reason}
use netorcai.Login.{kick}
use netorcai.Cleanup.{
  Received, can_terminate, dropped, wait_finition, LastReceived, ordered, player_action,
  player_disconnected, incoming, wait_game_logic_finition,
}

-- The messages before the order.
abbrev pub Dropped : List Received → Type 0
Dropped [] = Unit {0}
Dropped (can_terminate reason ∷ rs) = ⊥
Dropped (dropped ∷ rs) = Dropped rs

-- A client that was kicked at the end of the game drops whatever arrives before the order to
-- terminate, ends with the order, and is not sent a second KICK.
pub wait_finition_once :
    (client : Client) (before after : List Received) (reason : Reason)
    → client.state ≡ kicked
    → Dropped before
    → wait_finition client (before ++ (can_terminate reason ∷ after)) ≡ some (client, [])
unfolding wait_finition kick
wait_finition_once client [] after reason h d = rw h refl
wait_finition_once client (can_terminate r ∷ rs) after reason h d = absurd d
wait_finition_once client (dropped ∷ rs) after reason h d =
    wait_finition_once client rs after reason h d

-- The order, or something else.
abbrev pub forget : LastReceived → Received
forget (ordered reason) = can_terminate reason
forget (player_action action) = dropped
forget (player_disconnected id) = dropped
forget (incoming message) = dropped

-- A game logic waits as the other clients do, whatever players send it.
pub wait_game_logic_finition_lem :
    (client : Client) (rs : List LastReceived)
    → wait_game_logic_finition client rs ≡ wait_finition client (map forget rs)
unfolding wait_finition wait_game_logic_finition
wait_game_logic_finition_lem client [] = refl
wait_game_logic_finition_lem client (ordered reason ∷ rs) = refl
wait_game_logic_finition_lem client (player_action action ∷ rs) =
    wait_game_logic_finition_lem client rs
wait_game_logic_finition_lem client (player_disconnected id ∷ rs) =
    wait_game_logic_finition_lem client rs
wait_game_logic_finition_lem client (incoming message ∷ rs) = wait_game_logic_finition_lem client rs
