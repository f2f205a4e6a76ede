-- ===== src/GameControl/Fast/Rounds.antt =====
-- One round of the fast loop, for a player that it knows as connected.
use netorcai.Prelude.{
  ℕ, zero, suc, ◌+◌, ◌≤◌, ◌<◌, ℤ, eqb_ℤ, eqb_ℤ_iff, ltb_ℤ, pos, ◌≡◌, refl, ap, sym, subst, ◌∙◌, ◌≢◌,
  ◌⊎◌, inl, inr, List, [], ◌∷◌, ◌++◌, map, Bool, true, false, if◌then◌else◌, Bool-cases, arith,
}
use netorcai.Result.{Result}
use netorcai.Json.{Fields}
use netorcai.Outcome.{Outcome, returns, blocks, returns_inj, >>=-eq-returns}
use netorcai.Messages.{MessageDoTurnAck}
use netorcai.State.{MessageDoTurnPlayerAction, Reason}
use netorcai.GameControl.{
  Game, Output, handle_gl_forward_turn_to_clients, handle_gl_do_turn_ack_reception, end_game,
}
use netorcai.GameControl.Loop.{loops, Round, loops_inj}
use netorcai.GameControl.Fast.{
  Fast, Phase, waiting_ack, collecting, incoming, player_action, player_disconnected, put, delete,
  is_connected, are_all_values_true, collect, turn, on_message, while_waiting, while_collecting,
  on_action, on_disconnection, finish, step, all_ids, start_fast,
}
use netorcai.GameControl.Fast.Received.{Waits, Waits-put, Waits-not_all}

Waits-all :
    (id : ℤ) (ids : List ℤ) → is_connected id ids ≡ true → Waits id (map (λ k. (k, false)) ids)
unfolding is_connected
Waits-all id [] h = cc
Waits-all id (k ∷ ks) h = elim (Bool-cases (eqb_ℤ k id)) [
  | inl hit ↦ inl ((eqb_ℤ_iff k id).0 hit, refl)
  | inr miss ↦ inr (Waits-all id ks (rw miss at h))
]

delete-is_connected :
    (id other : ℤ) (ids : List ℤ)
    → other ≢ id
    → is_connected id ids ≡ true
    → is_connected id (delete other ids) ≡ true
unfolding is_connected delete
delete-is_connected id other [] apart h = h
delete-is_connected id other (k ∷ ks) apart h =
    ground (arith, eqb_ℤ_iff k id, eqb_ℤ_iff k other, delete-is_connected id other ks apart)

apart-eqb : (a b : ℤ) → b ≢ a → eqb_ℤ a b ≡ false
apart-eqb a b h = ground (arith, eqb_ℤ_iff a b)

-- A turn that begins: the clients get it, and the loop waits for the player.
pub record Begins (game : Game) (id : ℤ) (f f' : Fast) (outputs : List Output) : Type 0 where
  pub waited : f.phase ≡ waiting_ack
  pub collects : f'.phase ≡ collecting
  pub awaits : Waits id f'.received
  pub same_connected : f'.connected ≡ f.connected
  pub ack : MessageDoTurnAck
  pub number : ℕ
  pub forwards : outputs ≡ handle_gl_forward_turn_to_clients ack number game ∷ []

turn-Begins :
    (game : Game) (id : ℤ) (ack : MessageDoTurnAck) (f f' : Fast) (r : Round Fast)
    → f.phase ≡ waiting_ack
    → is_connected id f.connected ≡ true
    → turn ack game f ≡ returns r
    → r.next ≡ loops f'
    → Begins game id f f' r.outputs
unfolding turn finish collect
turn-Begins game id ack f f' r waited connected h next =
    elim (Bool-cases (ltb_ℤ (pos (suc f.turn_number)) game.nb_turns_max)) [
      | inl more ↦
          let received : List (ℤ × Bool) = map (λ k. (k, false)) f.connected in
          let waits : Waits id received = Waits-all id f.connected connected in
          let open_ : are_all_values_true received ≡ false = Waits-not_all id received waits in
          let forward = handle_gl_forward_turn_to_clients ack (suc f.turn_number) game in
          let begun : Fast = record f {
            phase = collecting;
            turn_number = suc f.turn_number;
            received = received;
          } in
          let e : record { outputs = forward ∷ []; next = loops begun } ≡ r =
            returns_inj (rw (more, open_) at h) in
          let same : begun ≡ f' = loops_inj (ap (λ q. q.next) e ∙ next) in
          record {
            waited = waited;
            collects = ap (λ q. q.phase) (sym same);
            awaits = subst (λ q. Waits id q.received) same waits;
            same_connected = ap (λ q. q.connected) (sym same);
            ack = ack;
            number = suc f.turn_number;
            forwards = ap (λ q. q.outputs) (sym e);
          }
      | inr last ↦
          let (outputs, ended, e) = >>=-eq-returns (end_game ack game) _ (rw last at h) in
          absurd (ground (arith, e))
    ]

message-Begins :
    (game : Game) (id : ℤ) (verdict : MessageDoTurnAck ⊎ Reason) (f f' : Fast) (r : Round Fast)
    → f.phase ≡ waiting_ack
    → is_connected id f.connected ≡ true
    → on_message verdict game f ≡ returns r
    → r.next ≡ loops f'
    → Begins game id f f' r.outputs
unfolding on_message
message-Begins game id (inl ack) f f' r waited connected h next =
    turn-Begins game id ack f f' r waited connected h next
message-Begins game id (inr reason) f f' r waited connected h next = absurd (ground arith)

waiting :
    (p : Phase) (round r : Outcome (Round Fast))
    → while_waiting p round ≡ r
    → r ≢ blocks
    → (p ≡ waiting_ack) × (round ≡ r)
unfolding while_waiting
waiting waiting_ack round r h open_ = (refl, h)
waiting collecting round r h open_ = absurd (open_ (sym h))

-- A message of the game logic that the loop goes on from begins a turn.
pub incoming-Begins :
    (game : Game) (id : ℤ) (message : Result Fields) (f f' : Fast) (r : Round Fast)
    → is_connected id f.connected ≡ true
    → step game (incoming message) f ≡ returns r
    → r.next ≡ loops f'
    → Begins game id f f' r.outputs
unfolding step
incoming-Begins game id message f f' r connected h next =
    let (waited, run) = waiting f.phase _ (returns r) h (λ e. cc) in
    message-Begins game id (handle_gl_do_turn_ack_reception game.nb_players message) f f' r waited
      connected run next

-- What the news of another player changes for this one.
pub record Other (id : ℤ) (f f' : Fast) : Type 0 where
  pub collected : f.phase ≡ collecting
  pub still_awaits : Waits id f.received → (f'.phase ≡ collecting) × Waits id f'.received
  pub still_connected : is_connected id f.connected ≡ true → is_connected id f'.connected ≡ true

collect-next :
    (g f' : Fast)
    → (collect [] g).next ≡ loops f'
    → (f'.received ≡ g.received)
      × (f'.connected ≡ g.connected)
      × (are_all_values_true g.received ≡ false → f'.phase ≡ collecting)
unfolding collect
collect-next g f' h = ground arith

collecting_only :
    (p : Phase) (round r : Round Fast)
    → while_collecting p round ≡ returns r
    → (p ≡ collecting) × (round ≡ r)
unfolding while_collecting
collecting_only waiting_ack round r h = cc
collecting_only collecting round r h = (refl, returns_inj h)

-- The state behind the news of a player, before the test of the inner loop.
abbrev acted : MessageDoTurnPlayerAction → Fast → Fast
acted action f = record f {
  received = put action.player_id f.received;
  player_actions =
      if is_connected action.player_id f.connected
      then f.player_actions ++ (action ∷ [])
      else f.player_actions;
}

abbrev gone : ℤ → Fast → Fast
gone id f = record f { received = put id f.received; connected = delete id f.connected }

pub action-Other :
    (game : Game) (id : ℤ) (action : MessageDoTurnPlayerAction) (f f' : Fast) (r : Round Fast)
    → action.player_id ≢ id
    → step game (player_action action) f ≡ returns r
    → r.next ≡ loops f'
    → Other id f f'
unfolding step on_action
action-Other game id action f f' r apart h next =
    let (collected, e) = collecting_only f.phase (collect [] (acted action f)) r h in
    let (received, connected, goes_on) =
      collect-next (acted action f) f' (ap (λ q. q.next) e ∙ next) in
    record {
      collected = collected;
      still_awaits = λ w.
          let w' =
            Waits-put action.player_id id f.received (apart-eqb id action.player_id apart) w in
          (goes_on (Waits-not_all id _ w'), subst (Waits id) (sym received) w');
      still_connected = λ c. rw connected c;
    }

pub disconnection-Other :
    (game : Game) (id other : ℤ) (f f' : Fast) (r : Round Fast)
    → other ≢ id
    → step game (player_disconnected other) f ≡ returns r
    → r.next ≡ loops f'
    → Other id f f'
unfolding step on_disconnection
disconnection-Other game id other f f' r apart h next =
    let (collected, e) = collecting_only f.phase (collect [] (gone other f)) r h in
    let (received, connected, goes_on) =
      collect-next (gone other f) f' (ap (λ q. q.next) e ∙ next) in
    record {
      collected = collected;
      still_awaits = λ w.
          let w' = Waits-put other id f.received (apart-eqb id other apart) w in
          (goes_on (Waits-not_all id _ w'), subst (Waits id) (sym received) w');
      still_connected = λ c. rw connected (delete-is_connected id other f.connected apart c);
    }

-- The player's own action.
pub action-own :
    (game : Game) (action : MessageDoTurnPlayerAction) (f f' : Fast) (r : Round Fast)
    → step game (player_action action) f ≡ returns r
    → r.next ≡ loops f'
    → (f.phase ≡ collecting) × (f'.connected ≡ f.connected)
unfolding step on_action
action-own game action f f' r h next =
    let (collected, e) = collecting_only f.phase (collect [] (acted action f)) r h in
    let (received, connected, goes_on) =
      collect-next (acted action f) f' (ap (λ q. q.next) e ∙ next) in
    (collected, connected)

all_ids-is_connected :
    (k n from : ℕ) → from ≤ k → k < from + n → is_connected (pos k) (all_ids n from) ≡ true
unfolding is_connected all_ids
all_ids-is_connected k zero from lo hi = absurd (omega arith)
all_ids-is_connected k (suc n) from lo hi = elim (Bool-cases (eqb_ℤ (pos from) (pos k))) [
  | inl hit ↦ rw hit refl
  | inr miss ↦ rw miss (all_ids-is_connected k n (suc from) (ground arith) (omega arith))
]

-- The loop begins with every player of the game connected, and waits for the game logic.
pub start_fast-connected :
    (n k : ℕ) (f : Fast)
    → k < n
    → (start_fast n).next ≡ loops f
    → is_connected (pos k) f.connected ≡ true
unfolding start_fast
start_fast-connected n k f h next =
    subst (λ q. is_connected (pos k) q.connected ≡ true) (loops_inj next)
      (all_ids-is_connected k n 0 (omega arith) (omega arith))
