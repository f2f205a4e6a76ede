-- ===== src/GameControl/Timers/Race.antt =====
-- What a goroutine that empties `playerActions` does to the loop that records an action in it.
use netorcai.Prelude.{ℕ, suc, eqb_ℤ, ◌≡◌, refl, [], ◌∷◌, ◌++◌, some, none}
use netorcai.Outcome.{returns, panics}
use netorcai.Slices.{find_index, swap_last}
use netorcai.State.{MessageDoTurnPlayerAction}
use netorcai.GameControl.{Game, do_turn}
use netorcai.GameControl.Loop
use netorcai.GameControl.Loop.{Round, loops}
use netorcai.GameControl.Timers.{
  Timers, idle, player_action, records, delay_over, resets, search, record_action, wake_up,
  reset_actions, on_action, at_select, step, run,
}

-- If the loop is at its `select`, the list has an action of the player that sends one, and a goroutine has sent its
-- DO_TURN but not yet emptied the list, then emptying it between the `range` and the swap makes the swap panic.
pub reset_while_replacing :
    (game : Game) (action : MessageDoTurnPlayerAction) (t : Timers) (i n : ℕ)
    → t.recording ≡ idle
    → t.unreset ≡ suc n
    → find_index (λ a. eqb_ℤ a.player_id action.player_id) t.player_actions ≡ some i
    → run game (player_action action ∷ resets ∷ records ∷ []) t ≡ panics
unfolding run step Loop.run Loop.continue_with Loop.prefix on_action at_select search reset_actions
    record_action swap_last
reset_while_replacing game action t i n at_idle unreset at_i = rw (at_idle, unreset, at_i) refl

-- If the loop is at its `select`, the list has no action of the player that sends one, and two goroutines wait for
-- their delays, then the loop can read the slice, the first goroutine send it and empty it, and `append` put it back
-- with the new action: the second DO_TURN holds all actions of the first one again.
pub reset_while_appending :
    (game : Game) (action : MessageDoTurnPlayerAction) (t : Timers) (n m : ℕ)
    → t.recording ≡ idle
    → t.sleeping ≡ suc (suc n)
    → t.unreset ≡ m
    → find_index (λ a. eqb_ℤ a.player_id action.player_id) t.player_actions ≡ none
    → run game (player_action action ∷ delay_over ∷ resets ∷ records ∷ delay_over ∷ []) t
      ≡ returns (record {
        outputs = do_turn t.player_actions ∷ do_turn (t.player_actions ++ (action ∷ [])) ∷ [];
        next = loops (record {
          turn_number = t.turn_number;
          player_actions = t.player_actions ++ (action ∷ []);
          recording = idle;
          sleeping = n;
          unreset = suc m;
        });
      })
unfolding run step Loop.run Loop.continue_with Loop.prefix on_action at_select search reset_actions
    record_action wake_up
reset_while_appending game action t n m at_idle sleeping unreset absent =
    rw (at_idle, sleeping, unreset, absent) refl
