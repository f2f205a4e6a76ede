-- ===== src/Login/Autostart.antt =====
-- When the game starts by itself, and what a second call of `autostart` does.
use netorcai.Prelude.{
  ◌≤◌, ◌<◌, pos, eqb_ℤ_iff, ◌≡◌, refl, ap, ◌≢◌, ◌⊎◌, inl, inr, true, List, [], ◌∷◌, ◌++◌, length,
  length-append, arith, Bool-cases, All, ◌&&◌, &&-eq-true, ◌==◌,
}
use netorcai.Outcome.{returns, blocks, panics, make_chan}
use netorcai.State.{running, GameLogicClient, GlobalState}
use netorcai.Login.{send_start, start_game, are_all_expected_clients_connected, autostart}

-- Every place is taken, and the game logic is there.
pub record IsComplete (gs : GlobalState) (gl : GameLogicClient) : Type 0 where
  pub players_full : pos (length gs.players) ≡ gs.nb_players_max
  pub special_players_full : pos (length gs.special_players) ≡ gs.nb_special_players_max
  pub visus_full : pos (length gs.visus) ≡ gs.nb_visus_max
  pub game_logic_only : gs.game_logic ≡ gl ∷ []

single {ℓ} : {A : Type ℓ} (xs : List A) → (length xs == 1) ≡ true → (a : A) × (xs ≡ a ∷ [])
single [] h = cc
single (a ∷ []) h = (a, refl)
single (a ∷ b ∷ xs) h = absurd (ground arith)

complete :
    (gs : GlobalState)
    → are_all_expected_clients_connected gs ≡ true
    → (gl : GameLogicClient) × IsComplete gs gl
unfolding are_all_expected_clients_connected
complete gs h =
    let one : (length gs.game_logic == 1) ≡ true = ground arith in
    let (gl, e) = single gs.game_logic one in
    (
      gl,
      record {
        players_full = (eqb_ℤ_iff _ _).0 (ground arith);
        special_players_full = (eqb_ℤ_iff _ _).0 (ground arith);
        visus_full = (eqb_ℤ_iff _ _).0 (ground arith);
        game_logic_only = e;
      },
    )

IsComplete-all :
    (gs : GlobalState) (gl : GameLogicClient)
    → IsComplete gs gl
    → are_all_expected_clients_connected gs ≡ true
unfolding are_all_expected_clients_connected
IsComplete-all gs gl c = ground (
  arith,
  (eqb_ℤ_iff (pos (length gs.players)) gs.nb_players_max).1 c.players_full,
  (eqb_ℤ_iff (pos (length gs.special_players)) gs.nb_special_players_max).1 c.special_players_full,
  (eqb_ℤ_iff (pos (length gs.visus)) gs.nb_visus_max).1 c.visus_full,
  ap length c.game_logic_only,
)

-- The state behind a start order to `gl`.
abbrev pub ordered : GlobalState → GameLogicClient → GlobalState
ordered gs gl = record gs {
  game_state = running;
  game_logic =
      record gl {
        start = record { capacity = gl.start.capacity; queue = gl.start.queue ++ (1 ∷ []) };
      }
      ∷ [];
}

-- `autostart` never indexes an empty list.
autostart-ne-panics : (gs : GlobalState) → autostart gs ≢ panics
unfolding autostart
autostart-ne-panics gs h = elim (Bool-cases (are_all_expected_clients_connected gs)) [
  | inl all ↦ let (gl, c) = complete gs all in ground (arith, c.game_logic_only)
  | inr some_missing ↦ ground arith
]

autostart_returns :
    (gs gs' : GlobalState)
    → autostart gs ≡ returns gs'
    → (gs' ≡ gs)
      ⊎ ((gl : GameLogicClient) × IsComplete gs gl
          × (length gl.start.queue < gl.start.capacity)
          × (gs' ≡ ordered gs gl))
unfolding autostart
autostart_returns gs gs' h = elim (Bool-cases (are_all_expected_clients_connected gs)) [
  | inl all ↦
      let (gl, c) = complete gs all in
      elim (Bool-cases gs.autostart) [
        | inl on ↦ inr (gl, c, ground (arith, c.game_logic_only), ground (arith, c.game_logic_only))
        | inr off ↦ inl (ground arith)
      ]
  | inr some_missing ↦ inl (ground arith)
]

-- `autostart` never indexes an empty list. If it returns, it changed nothing, or everybody expected
-- was there, the game is running now and one start order was added to those of the game logic.
pub autostart_cases :
    (gs : GlobalState)
    → (autostart gs ≢ panics)
      × ((gs' : GlobalState)
          → autostart gs ≡ returns gs'
          → (gs' ≡ gs)
            ⊎ ((gl : GameLogicClient) × IsComplete gs gl
                × (length gl.start.queue < gl.start.capacity)
                × (gs' ≡ ordered gs gl)))
autostart_cases gs = (autostart-ne-panics gs, autostart_returns gs)

-- No game logic has a start order, and there is room for one.
abbrev pub AllFresh : List GameLogicClient → Type 0
AllFresh gls = All (λ gl. gl.start ≡ make_chan 1) gls

pub send_start_returns :
    (gls : List GameLogicClient)
    → length gls ≡ 1
    → AllFresh gls
    → (gls' : List GameLogicClient) × (send_start gls ≡ returns gls')
unfolding send_start
send_start_returns [] one fresh = absurd (omega (arith, one))
send_start_returns (gl ∷ gls) one fresh =
    (record gl { start = record { capacity = 1; queue = 1 ∷ [] } } ∷ gls, rw (fresh.0) refl)

-- Then `autostart` returns, too.
pub autostart_ends :
    (gs : GlobalState) → AllFresh gs.game_logic → (gs' : GlobalState) × (autostart gs ≡ returns gs')
unfolding autostart start_game
autostart_ends gs fresh =
    elim (Bool-cases (gs.autostart && are_all_expected_clients_connected gs)) [
      | inr off ↦ (gs, rw off)
      | inl on ↦
          let (gl, c) =
            complete gs (&&-eq-true gs.autostart (are_all_expected_clients_connected gs) on).1 in
          let (gls, sent) = send_start_returns gs.game_logic (ap length c.game_logic_only) fresh in
          (record gs { game_state = running; game_logic = gls }, rw (on, sent) refl)
    ]

-- If everybody expected is there, whatever the game state, a start order that the game logic has
-- not taken yet makes the next `autostart` wait for ever: it blocks the goroutine of the client.
pub autostart_blocks :
    (gs : GlobalState) (gl : GameLogicClient)
    → gs.autostart ≡ true
    → IsComplete gs gl
    → gl.start.capacity ≤ length gl.start.queue
    → autostart gs ≡ blocks
unfolding autostart
autostart_blocks gs gl on c full = ground (arith, IsComplete-all gs gl c, c.game_logic_only)

-- If everybody expected is there and the game logic has no order yet, of two clients that both call
-- `autostart` the second one blocks, as long as the game logic has not taken the order of the first.
pub autostart_twice :
    (gs gs' : GlobalState) (gl : GameLogicClient)
    → gs.autostart ≡ true
    → IsComplete gs gl
    → gl.start ≡ make_chan 1
    → autostart gs ≡ returns gs'
    → autostart gs' ≡ blocks
unfolding autostart
autostart_twice gs gs' gl on c fresh h =
    let e : gs' ≡ ordered gs gl = ground (arith, IsComplete-all gs gl c, c.game_logic_only) in
    rw e (
      autostart_blocks (ordered gs gl) _ on
        (record {
          players_full = c.players_full;
          special_players_full = c.special_players_full;
          visus_full = c.visus_full;
          game_logic_only = refl;
        })
        (ground (arith, length-append gl.start.queue (1 ∷ []))))
