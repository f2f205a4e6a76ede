-- ===== src/GameControl/Finish.antt =====
-- The end of a game: the winner that is logged and the last messages.
use mathlib.Core.Path.{ap₂}
use mathlib.Core.List.{map-append}
use netorcai.Prelude.{
  inl, ◌≤ℤ◌, ◌<ℤ◌, ℕ, zero, suc, ◌+◌, ◌<◌, ℤ, pos, negsuc, minus_one, ◌≡◌, refl, ap, ◌∙◌, List, [],
  ◌∷◌, ◌++◌, map, Option, none, some, get_elem?, arith, inl,
}
use netorcai.Result.{Result, ok, err}
use netorcai.Json.{Fields}
use netorcai.Outcome.{returns}
use netorcai.Messages.{MessageDoTurnAck, read_do_turn_ack_message}
use netorcai.Messages.Acks.{read_do_turn_ack_message-ok_iff}
use netorcai.Outgoing.{MessageGameEnds}
use netorcai.State.{ClientId, game_is_finished}
use netorcai.GameLogic.{Numbered}
use netorcai.GameLogic.Sorting.{ids}
use netorcai.GameLogic.Numbering.{range}
use netorcai.GameControl.{
  Game, game_ends, kicks, winner_entry, end_for, handle_gl_game_finished, end_game, exits, read_ack,
  or_invalid, handle_gl_do_turn_ack_reception,
}

-- The information on the players stands in the order of their identifiers 0, 1, …
pub record IsNumbered (game : Game) (n : ℕ) : Type 0 where
  pub counted : game.nb_players ≡ pos n
  pub ordered : ids game.players_info ≡ range 0 n

get_elem?-range :
    (infos : List Numbered) (start n w : ℕ)
    → ids infos ≡ range start n
    → w < n
    → (p : Numbered) × (get_elem? infos w ≡ some p) × (p.1 ≡ start + w)
get_elem?-range [] start zero w e h = absurd (omega arith)
get_elem?-range [] start (suc n) w e h = cc
get_elem?-range (p ∷ ps) start zero w e h = absurd (omega arith)
get_elem?-range (p ∷ ps) start (suc n) zero e h = (p, refl, ground arith)
get_elem?-range (p ∷ ps) start (suc n) (suc w) e h =
    let (q, at_w, value) = get_elem?-range ps (suc start) n w (ground arith) (omega arith) in
    (q, at_w, omega (arith, value))

-- No winner, or the player with the winner's identifier.
abbrev pub Names : ℤ → Option Numbered → Type 0
Names w none = w ≡ minus_one
Names w (some p) = w ≡ pos p.1

winner_entry-Names :
    (w : ℤ) (infos : List Numbered) (n : ℕ)
    → ids infos ≡ range 0 n
    → minus_one ≤ℤ w
    → w <ℤ pos n
    → (winner : Option Numbered) × (winner_entry w infos ≡ returns winner) × Names w winner
unfolding winner_entry
winner_entry-Names (negsuc zero) infos n e lo hi = (none, refl, refl)
winner_entry-Names (negsuc (suc m)) infos n e lo hi = absurd (ground arith)
winner_entry-Names (pos w) infos n e lo hi =
    let (p, at_w, value) = get_elem?-range infos 0 n w e (omega arith) in
    (some p, rw at_w refl, ap pos (omega (arith, value)))

end_for-owners :
    (ack : MessageDoTurnAck) (cs : List ClientId) → map (λ s. s.0) (map (end_for ack) cs) ≡ cs
unfolding end_for
end_for-owners ack [] = refl
end_for-owners ack (c ∷ cs) = ap (◌∷◌ c) (end_for-owners ack cs)

-- Behind a DO_TURN_ACK that was accepted the end of the game never panics: it logs the player whose
-- identifier the game logic sent, or no winner for -1, sends GAME_ENDS to every client that the
-- game began with, in order, and kicks the game logic.
pub handle_gl_game_finished_returns :
    (game : Game) (n : ℕ) (content : Fields) (ack : MessageDoTurnAck)
    → IsNumbered game n
    → read_do_turn_ack_message content game.nb_players ≡ ok ack
    → (winner : Option Numbered) × (sends : List (ClientId × MessageGameEnds))
      × (handle_gl_game_finished ack game
          ≡ returns (winner, game_ends sends ∷ kicks game_is_finished ∷ []))
      × Names ack.winner_player_id winner
      × (map (λ s. s.0) sends ≡ game.all_players ++ game.visus)
unfolding handle_gl_game_finished
handle_gl_game_finished_returns game n content ack v e =
    let valid = (read_do_turn_ack_message-ok_iff content game.nb_players ack).0 e in
    let (winner, run, names) =
      winner_entry-Names ack.winner_player_id game.players_info n v.ordered valid.winner_least
        (rw v.counted at valid.winner_below) in
    (
      winner,
      map (end_for ack) game.all_players ++ map (end_for ack) game.visus,
      rw run refl,
      names,
      map-append (λ s. s.0) (map (end_for ack) game.all_players) (map (end_for ack) game.visus)
          ∙ ap₂ ◌++◌ (end_for-owners ack game.all_players) (end_for-owners ack game.visus),
    )

-- The acknowledgement was read from a message.
abbrev pub IsAccepted : Game → MessageDoTurnAck → Type 0
IsAccepted game ack =
    (content : Fields) × (read_do_turn_ack_message content game.nb_players ≡ ok ack)

invalid_or :
    (r : Result MessageDoTurnAck) (ack : MessageDoTurnAck) → or_invalid r ≡ inl ack → r ≡ ok ack
unfolding or_invalid
invalid_or (ok a) ack h = cc
invalid_or (err e) ack h = cc

pub reception-IsAccepted :
    (game : Game) (message : Result Fields) (ack : MessageDoTurnAck)
    → handle_gl_do_turn_ack_reception game.nb_players message ≡ inl ack
    → IsAccepted game ack
unfolding handle_gl_do_turn_ack_reception read_ack
reception-IsAccepted game (err e) ack h = cc
reception-IsAccepted game (ok content) ack h =
    (content, invalid_or (read_do_turn_ack_message content game.nb_players) ack h)

pub end_game_returns :
    (game : Game) (n : ℕ) (ack : MessageDoTurnAck)
    → IsNumbered game n
    → IsAccepted game ack
    → (sends : List (ClientId × MessageGameEnds)) × (end_game ack game
        ≡ returns (game_ends sends ∷ kicks game_is_finished ∷ exits 0 ∷ []))
unfolding end_game
end_game_returns game n ack v (content, e) =
    let (winner, sends, run, _, _) = handle_gl_game_finished_returns game n content ack v e in
    (sends, rw run refl)
