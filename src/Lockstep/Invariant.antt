-- ===== src/Lockstep/Invariant.antt =====
-- In fast mode a player and the game logic go in step.
use netorcai.Prelude.{
  ℕ, ◌<◌, pos, ℤ, ◌≡◌, refl, sym, ◌∙◌, ◌≢◌, ◌⊎◌, inl, inr, List, [], ◌∷◌, ◌++◌, true, none, arith,
}
use netorcai.Outcome.{returns}
use netorcai.Outgoing.{MessageTurn, MessageGameStarts}
use netorcai.GameControl.Loop
use netorcai.PlayerOrVisu
use netorcai.State.{
  ClientState, ClientId, ready, thinking, MessageDoTurnPlayerAction, PlayerOrVisuClient,
  GameLogicClient,
}
use netorcai.GameControl.{Game}
use netorcai.GameControl.Fast.{Fast, waiting_ack, collecting, is_connected, start_fast}
use netorcai.GameControl.Fast.Received.{Waits}
use netorcai.GameControl.Fast.Rounds.{
  incoming-Begins, Other, action-Other, disconnection-Other, action-own, start_fast-connected,
}
use netorcai.PlayerOrVisu.{Handler, start_handler}
use netorcai.Lockstep.{
  System, Step, acknowledged, other_plays, other_leaves, plays, takes_turn, answers, Steps, done,
  more,
}
use netorcai.Lockstep.Channels.{occurrences, outputs_to-forward, takes_turn_round, answer_round}

-- Nothing is under way between the game logic and the player.
pub record Idle (h : Handler) (turns : List MessageTurn) (actions : List MessageDoTurnPlayerAction)
    : Type 0 where
  pub is_ready : h.pv.client.state ≡ ready
  pub no_turn : turns ≡ []
  pub no_action : actions ≡ []

-- One turn waits for the player, which is ready for it.
pub record Queued (h : Handler) (turns : List MessageTurn)
    (actions : List MessageDoTurnPlayerAction) : Type 0 where
  pub is_ready : h.pv.client.state ≡ ready
  pub turn : MessageTurn
  pub one_turn : turns ≡ turn ∷ []
  pub no_action : actions ≡ []

-- The player was sent the turn.
pub record Thinks (h : Handler) (turns : List MessageTurn)
    (actions : List MessageDoTurnPlayerAction) : Type 0 where
  pub is_thinking : h.pv.client.state ≡ thinking
  pub no_turn : turns ≡ []
  pub no_action : actions ≡ []

-- Its action waits for the game logic.
pub record Played (id : ℤ) (h : Handler) (turns : List MessageTurn)
    (actions : List MessageDoTurnPlayerAction) : Type 0 where
  pub is_ready : h.pv.client.state ≡ ready
  pub no_turn : turns ≡ []
  pub action : MessageDoTurnPlayerAction
  pub one_action : actions ≡ action ∷ []
  pub own : action.player_id ≡ id

abbrev pub Busy : ℤ → System → Type 0
Busy id s =
    Queued s.handler s.new_turn s.player_action
    ⊎ (Thinks s.handler s.new_turn s.player_action ⊎ Played id s.handler s.new_turn s.player_action)

pub record Lockstep (id : ℤ) (s : System) : Type 0 where
  pub player : s.handler.pv.is_player ≡ true
  pub named : s.handler.pv.player_id ≡ id
  pub no_buffer : s.handler.turn_buffer ≡ []
  pub connected : is_connected id s.loop.connected ≡ true
  pub under_way :
      ((s.loop.phase ≡ collecting) × Waits id s.loop.received × Busy id s)
      ⊎ Idle s.handler s.new_turn s.player_action

not_both : collecting ≢ waiting_ack
not_both h = cc

ready_not_thinking : {state : ClientState} → state ≡ ready → state ≡ thinking → ⊥
ready_not_thinking h k = cc

empty_cons {ℓ} : {A : Type ℓ} {xs rest : List A} {a : A} → xs ≡ [] → xs ≡ a ∷ rest → ⊥
empty_cons h k = cc

rest_empty {ℓ} : {A : Type ℓ} {xs rest : List A} {a b : A} → xs ≡ a ∷ rest → xs ≡ b ∷ [] → rest ≡ []
rest_empty h k = cc

-- The news of another player.
Other-Lockstep :
    (id : ℤ) (s : System) (loop : Fast)
    → Other id s.loop loop
    → Lockstep id s
    → Lockstep id (record s { loop = loop })
Other-Lockstep id s loop o v = record {
  player = v.player;
  named = v.named;
  no_buffer = v.no_buffer;
  connected = o.still_connected v.connected;
  under_way = elim (v.under_way) [
    | inl (collects, waits, busy) ↦
        let (collects', waits') = o.still_awaits waits in inl (collects', waits', busy)
    | inr idle ↦ inr idle
  ];
}

module _ (game : Game) (gls : List GameLogicClient) (c : ClientId) (id : ℤ)
    (once : occurrences c (game.all_players ++ game.visus) ≡ 1) where
  Step-Lockstep : (s s' : System) → Step game gls c id s s' → Lockstep id s → Lockstep id s'
  Step-Lockstep _ _ (acknowledged message s r loop did next) v =
      let b = incoming-Begins game id message s.loop loop r v.connected did next in
      let (m, one) = outputs_to-forward c b.ack b.number game once in
      elim (v.under_way) [
        | inl (collects, waits, busy) ↦ absurd (not_both (sym collects ∙ b.waited))
        | inr idle ↦ record {
          player = v.player;
          named = v.named;
          no_buffer = v.no_buffer;
          connected = rw (b.same_connected) (v.connected);
          under_way = inl (
            b.collects,
            b.awaits,
            inl (record {
              is_ready = idle.is_ready;
              turn = m;
              one_turn = rw (idle.no_turn, b.forwards) one;
              no_action = idle.no_action;
            }),
          );
        }
      ]
  Step-Lockstep _ _ (other_plays action s r loop apart did next) v =
      Other-Lockstep id s loop (action-Other game id action s.loop loop r apart did next) v
  Step-Lockstep _ _ (other_leaves other s r loop apart did next) v =
      Other-Lockstep id s loop (disconnection-Other game id other s.loop loop r apart did next) v
  Step-Lockstep _ _ (plays action rest s r loop first did next) v =
      let (collects, connected) = action-own game action s.loop loop r did next in
      record {
        player = v.player;
        named = v.named;
        no_buffer = v.no_buffer;
        connected = rw connected (v.connected);
        under_way = elim (v.under_way) [
          | inr idle ↦ absurd (empty_cons idle.no_action first)
          | inl (collecting_, waits, inl queued) ↦ absurd (empty_cons queued.no_action first)
          | inl (collecting_, waits, inr (inl thinks)) ↦ absurd (empty_cons thinks.no_action first)
          | inl (collecting_, waits, inr (inr played)) ↦ inr (record {
            is_ready = played.is_ready;
            no_turn = played.no_turn;
            no_action = rest_empty first played.one_action;
          })
        ];
      }
  Step-Lockstep _ _ (takes_turn turn rest s r handler first did next) v = elim (v.under_way) [
    | inr idle ↦ absurd (empty_cons idle.no_turn first)
    | inl (collects, waits, inr (inl thinks)) ↦ absurd (empty_cons thinks.no_turn first)
    | inl (collects, waits, inr (inr played)) ↦ absurd (empty_cons played.no_turn first)
    | inl (collects, waits, inl queued) ↦
        let (thinking_, silent, role, named, buffer) =
          takes_turn_round gls turn s.handler handler r queued.is_ready did next in
        record {
          player = role ∙ v.player;
          named = named ∙ v.named;
          no_buffer = buffer ∙ v.no_buffer;
          connected = v.connected;
          under_way = inl (
            collects,
            waits,
            inr (
                inl (record {
                  is_thinking = thinking_;
                  no_turn = rest_empty first queued.one_turn;
                  no_action = rw (queued.no_action, silent) refl;
                })),
          );
        }
  ]
  Step-Lockstep _ _ (answers message s r handler did next) v =
      let (thinks, is_ready, (action, forwarded, own), role, named, empty) =
        answer_round gls message s.handler handler r v.player v.no_buffer did next in
      record {
        player = role ∙ v.player;
        named = named ∙ v.named;
        no_buffer = empty;
        connected = v.connected;
        under_way = elim (v.under_way) [
          | inr idle ↦ absurd (ready_not_thinking idle.is_ready thinks)
          | inl (collects, waits, inl queued) ↦ absurd (ready_not_thinking queued.is_ready thinks)
          | inl (collects, waits, inr (inr played)) ↦
              absurd (ready_not_thinking played.is_ready thinks)
          | inl (collects, waits, inr (inl idle)) ↦ inl (
            collects,
            waits,
            inr (
                inr (record {
                  is_ready = is_ready;
                  no_turn = idle.no_turn;
                  action = action;
                  one_action = rw (idle.no_action) forwarded;
                  own = own ∙ v.named;
                })),
          )
        ];
      }

  Steps-Lockstep : (s s' : System) → Steps game gls c id s s' → Lockstep id s → Lockstep id s'
  Steps-Lockstep _ _ (done s) v = v
  Steps-Lockstep _ _ (more s s' s'' steps step) v =
      Step-Lockstep s' s'' step (Steps-Lockstep s s' steps v)

-- The round of GAME_STARTS, when it is sent.
started :
    (gls : List GameLogicClient) (m : MessageGameStarts) (pv : PlayerOrVisuClient) (h : Handler)
    (r : PlayerOrVisu.Round)
    → PlayerOrVisu.step gls (PlayerOrVisu.game_starts m none) (start_handler pv) ≡ returns r
    → r.next ≡ PlayerOrVisu.loops h
    → (h.pv.client.state ≡ ready)
      × (h.pv.is_player ≡ pv.is_player)
      × (h.pv.player_id ≡ pv.player_id)
      × (h.turn_buffer ≡ [])
unfolding PlayerOrVisu.step start_handler
started gls m pv h r did next = ground arith

-- In a game in fast mode, for a player that is sent GAME_STARTS, is in the game once and has not left,
-- whatever the others do and whatever it sends: while the game logic computes a turn nothing is under way to or from it, and from
-- the moment on that a turn goes out there is one turn in its channel, for which it is ready, or it
-- thinks, or its one action is in the channel back, and the game logic waits for it; after that again
-- nothing is under way. So no turn is ever buffered or dropped for it.
pub Steps-from_start :
    (game : Game) (gls : List GameLogicClient) (c : ClientId) (k n : ℕ) (m : MessageGameStarts)
    (pv : PlayerOrVisuClient) (loop : Fast) (h : Handler) (r : PlayerOrVisu.Round) (s : System)
    → k < n
    → occurrences c (game.all_players ++ game.visus) ≡ 1
    → pv.is_player ≡ true
    → pv.player_id ≡ pos k
    → (start_fast n).next ≡ Loop.loops loop
    → PlayerOrVisu.step gls (PlayerOrVisu.game_starts m none) (start_handler pv) ≡ returns r
    → r.next ≡ PlayerOrVisu.loops h
    → Steps game gls c
        (pos k)
        (record { loop = loop; handler = h; new_turn = []; player_action = [] })
        s
    → Lockstep (pos k) s
Steps-from_start game gls c k n m pv loop h r s in_game once player named fresh did next steps =
    let (is_ready, role, id, empty) = started gls m pv h r did next in
    Steps-Lockstep game gls c (pos k) once _ s steps (record {
      player = role ∙ player;
      named = id ∙ named;
      no_buffer = empty;
      connected = start_fast-connected n k loop in_game fresh;
      under_way = inr (record { is_ready = is_ready; no_turn = refl; no_action = refl });
    })
