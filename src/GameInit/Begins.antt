-- ===== src/GameInit/Begins.antt =====
-- How the start of a game ends.
use mathlib.Core.List.{Perm, map-append}
use mathlib.Core.Path.{ap₂}
use netorcai.Prelude.{
  ℕ, ◌+◌, pos, ◌≡◌, refl, ap, ◌∙◌, List, [], ◌∷◌, ◌++◌, map, length, none, arith, minus_one,
}
use netorcai.Result.{ok}
use netorcai.Json.{Fields}
use netorcai.Outcome.{returns}
use netorcai.Messages.{MessageDoInitAck, read_do_init_ack_message}
use netorcai.Outgoing.{MessageGameStarts}
use netorcai.State.{ClientId, Infos, GlobalState}
use netorcai.GameLogic.{Numbered, sort_by_id}
use netorcai.GameLogic.Numbering.{range, number_players-ids}
use netorcai.GameControl.{Output, do_init, game_starts}
use netorcai.GameControl.Loop.{loops, Round}
use netorcai.GameControl.Finish.{IsNumbered}
use netorcai.GameInit.{
  start, answered, Begun, Address, inform, game_of, start_message, starts_of, begin, on_answer,
  on_do_init, handle_game_logic,
}

owners {ℓ κ} :
    {A : Type ℓ} {B : Type κ} (f : A → ClientId) (g : A → B) (xs : List A)
    → map (λ (s : ClientId × B). s.0) (map (λ a. (f a, g a)) xs) ≡ map f xs
owners f g [] = refl
owners f g (x ∷ xs) = ap (◌∷◌ (f x)) (owners f g xs)

map-same {ℓ} : {A : Type ℓ} (xs : List A) → map (λ a. a) xs ≡ xs
map-same [] = refl
map-same (x ∷ xs) = ap (◌∷◌ x) (map-same xs)

starts_of-clients :
    (gs : GlobalState) (ack : MessageDoInitAck) (numbered : List Numbered)
    → map (λ s. s.0) (starts_of gs ack numbered) ≡ map (λ p. p.0) numbered ++ gs.visus
unfolding starts_of
starts_of-clients gs ack numbered =
    map-append (λ s. s.0) (map (λ p. (p.0, start_message gs ack (pos p.1) [])) numbered) _
    ∙ ap₂ ◌++◌ (owners (λ p. p.0) (λ p. start_message gs ack (pos p.1) []) numbered) (
        owners (λ c. c) (λ c. start_message gs ack minus_one (map (λ p. p.0) (sort_by_id numbered)))
          gs.visus
        ∙ map-same gs.visus)

-- What a game begins with: everybody who is there takes part, is told that the game starts, and the
-- information on the players is in the order of the identifiers 0, 1, …
pub record Begins (gs : GlobalState) (r : Round Begun) : Type 0 where
  pub begun : Begun
  pub goes_on : r.next ≡ loops begun
  pub is_numbered : IsNumbered begun.game (length gs.special_players + length gs.players)
  pub turns_kept : begun.game.nb_turns_max ≡ gs.nb_turns_max
  pub players_play : begun.game.all_players ≡ gs.players ++ gs.special_players
  pub visus_watch : begun.game.visus ≡ gs.visus
  pub starts : List (ClientId × MessageGameStarts)
  pub first_outputs : List Output
  pub told : r.outputs ≡ first_outputs ++ (game_starts starts ∷ [])
  pub told_all : map (λ s. s.0) starts ≡ (gs.players ++ gs.special_players) ++ gs.visus

abbrev pub ordered_init : GlobalState → List Output
ordered_init gs =
    do_init (record {
      nb_players = pos (length gs.players);
      nb_special_players = pos (length gs.special_players);
      nb_turns_max = gs.nb_turns_max;
    })
    ∷ []

abbrev began :
    (ClientId → Address) → GlobalState → Infos → List Numbered → MessageDoInitAck → Round Begun
began address gs infos numbered ack =
    begin (ordered_init gs) gs (inform address numbered infos) numbered (ok ack)

-- With the start order, a permutation of the players, a DO_INIT that is sent and a valid
-- DO_INIT_ACK the game begins: every client that is logged in is told that it starts, and the
-- players and special players have the identifiers 0, 1, … up to their number, each once.
pub handle_game_logic-Begins :
    (address : ClientId → Address) (permutation : List ℕ) (content : Fields) (gs : GlobalState)
    (infos : Infos) (ack : MessageDoInitAck)
    → length permutation ≡ length gs.players
    → Perm permutation (range 0 (length gs.players))
    → read_do_init_ack_message content ≡ ok ack
    → (r : Round Begun) × (handle_game_logic address start permutation none
          (answered (ok content))
          gs
          infos
        ≡ returns r)
      × Begins gs r
unfolding handle_game_logic on_do_init on_answer begin game_of
handle_game_logic-Begins address permutation content gs infos ack same_length perm read =
    let (numbered, run, clients, ordered) =
      number_players-ids permutation gs.players gs.special_players same_length perm in
    (
      began address gs infos numbered ack,
      rw (run, read) refl,
      record {
        begun = record {
          game = game_of gs numbered;
          infos = inform address numbered infos;
          fast = gs.fast;
        };
        goes_on = refl;
        is_numbered = record { counted = ap pos (omega arith); ordered = ordered };
        turns_kept = refl;
        players_play = clients;
        visus_watch = refl;
        starts = starts_of gs ack numbered;
        first_outputs = ordered_init gs;
        told = refl;
        told_all = starts_of-clients gs ack numbered ∙ ap (λ cs. cs ++ gs.visus) clients;
      },
    )
