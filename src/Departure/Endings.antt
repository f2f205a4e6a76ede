-- ===== src/Departure/Endings.antt =====
-- control_pv.go: how `KickLoggedPlayerOrVisu` ends, and two players that leave one behind the other.
use netorcai.Prelude.{
  ◌≡◌, refl, sym, ap, ◌∙◌, ◌⊎◌, inl, inr, true, false, ◌&&◌, List, [], ◌∷◌, length, ltb, Bool-cases,
  &&-eq-true,
}
use netorcai.Outcome.{returns, blocks, make_chan, returns_inj}
use netorcai.State.{running, PlayerOrVisuClient, Infos, GameLogicClient, GlobalState, Reason}
use netorcai.Departure.{
  is_running, notify, tell_game_logic, depart_special_player, depart_player, depart, Departure,
  kick_logged_player_or_visu,
}
use netorcai.Departure.Safety.{is_running-eq, single}
use netorcai.Departure.Told.{Told, visu-Told, silent-Told, hears, heard-Told, departure_returns}

-- In a running game in fast mode a player that leaves waits, with the global mutex held, while the
-- game logic has not yet taken the previous disconnection.
pub kick_logged_player_or_visu_blocks :
    (pv : PlayerOrVisuClient) (reason : Reason) (gs : GlobalState) (infos : Infos)
    (gl : GameLogicClient) (gls : List GameLogicClient)
    → pv.is_player ≡ true
    → (is_running gs.game_state && gs.fast) ≡ true
    → gs.game_logic ≡ gl ∷ gls
    → ltb (length gl.player_disconnected.queue) gl.player_disconnected.capacity ≡ false
    → kick_logged_player_or_visu pv reason gs infos ≡ blocks
unfolding kick_logged_player_or_visu depart depart_player depart_special_player tell_game_logic
    notify
kick_logged_player_or_visu_blocks pv reason gs infos gl gls player on only full =
    elim (Bool-cases pv.is_special_player) [
      | inl special ↦ rw (player, special, on, only, full) refl
      | inr usual ↦ rw (player, usual, on, only, full) refl
    ]

-- The player that leaves has to wait for the game logic.
pub record MustWait (pv : PlayerOrVisuClient) (gs : GlobalState) : Type 0 where
  pub player : pv.is_player ≡ true
  pub in_fast_game : (is_running gs.game_state && gs.fast) ≡ true
  pub gl : GameLogicClient
  pub gls : List GameLogicClient
  pub only : gs.game_logic ≡ gl ∷ gls
  pub full : ltb (length gl.player_disconnected.queue) gl.player_disconnected.capacity ≡ false

-- What a departure does to the game logics: nothing, or the first one has the disconnection in its channel.
abbrev pub Hears : PlayerOrVisuClient → GlobalState → GlobalState → Type 0
Hears pv gs gs' =
    (gs'.game_state ≡ gs.game_state)
    × ((gs'.game_logic ≡ gs.game_logic)
        ⊎ ((gl : GameLogicClient) × (gls : List GameLogicClient) × (gs.game_logic ≡ gl ∷ gls)
            × (gs'.game_logic ≡ hears pv gl ∷ gls)))

-- While a running game has its game logic, a departure ends, or a player has to wait.
pub kick_logged_player_or_visu_cases :
    (pv : PlayerOrVisuClient) (reason : Reason) (gs : GlobalState) (infos : Infos)
    → (gs.game_state ≡ running → length gs.game_logic ≡ 1)
    → ((d : Departure) × (kick_logged_player_or_visu pv reason gs infos ≡ returns d)
        × Hears pv gs d.global)
      ⊎ (MustWait pv gs × (kick_logged_player_or_visu pv reason gs infos ≡ blocks))
kick_logged_player_or_visu_cases pv reason gs infos one =
    elim (Bool-cases (is_running gs.game_state && gs.fast)) [
      | inr off ↦ inl (silent (silent-Told pv gs off))
      | inl on ↦ elim (Bool-cases pv.is_player) [
        | inr visu ↦ inl (silent (visu-Told pv gs visu))
        | inl player ↦
            let (gl, only) = single gs.game_logic (one (is_running-eq _ (&&-eq-true _ _ on).0)) in
            elim (Bool-cases
              (ltb (length gl.player_disconnected.queue) gl.player_disconnected.capacity)) [
                | inl room ↦
                    let t = heard-Told pv gs gl [] player on only room in
                    let (d, run, e) = departure_returns pv reason gs _ infos t in
                    inl (
                      d,
                      run,
                      (
                        ap (λ g. g.game_state) e ∙ t.game_state,
                        inr (gl, [], only, ap (λ g. g.game_logic) e ∙ t.game_logic),
                      ),
                    )
                | inr full ↦ inr (
                  record {
                    player = player;
                    in_fast_game = on;
                    gl = gl;
                    gls = [];
                    only = only;
                    full = full;
                  },
                  kick_logged_player_or_visu_blocks pv reason gs infos gl [] player on only full,
                )
              ]
      ]
    ]
  where
    silent :
        Told pv gs gs
        → (d : Departure) × (kick_logged_player_or_visu pv reason gs infos ≡ returns d)
          × Hears pv gs d.global
    silent t =
        let (d, run, e) = departure_returns pv reason gs gs infos t in
        (
          d,
          run,
          (ap (λ g. g.game_state) e ∙ t.game_state, inl (ap (λ g. g.game_logic) e ∙ t.game_logic)),
        )

-- While no game runs a departure leaves the game logic alone.
pub kick_logged_player_or_visu-idle :
    (pv : PlayerOrVisuClient) (reason : Reason) (gs : GlobalState) (infos : Infos) (d : Departure)
    → is_running gs.game_state ≡ false
    → kick_logged_player_or_visu pv reason gs infos ≡ returns d
    → d.global.game_logic ≡ gs.game_logic
kick_logged_player_or_visu-idle pv reason gs infos d idle h =
    let t = silent-Told pv gs (rw idle) in
    let (d', run, e) = departure_returns pv reason gs gs infos t in
    ap (λ q. q.global.game_logic) (returns_inj (sym h ∙ run))
    ∙ ap (λ g. g.game_logic) e
    ∙ t.game_logic

-- In a running game in fast mode, of two players that leave while the game logic takes nothing, the
-- first one leaves and the second one waits, with the global mutex held: the channel that tells the game
-- logic of it has room for one.
pub kick_logged_player_or_visu_twice :
    (first second : PlayerOrVisuClient) (reason again : Reason) (gs : GlobalState) (infos : Infos)
    (gl : GameLogicClient) (gls : List GameLogicClient)
    → first.is_player ≡ true
    → second.is_player ≡ true
    → gs.game_state ≡ running
    → gs.fast ≡ true
    → gs.game_logic ≡ gl ∷ gls
    → gl.player_disconnected ≡ make_chan 1
    → (d : Departure) × (kick_logged_player_or_visu first reason gs infos ≡ returns d)
      × (kick_logged_player_or_visu second again d.global d.infos ≡ blocks)
kick_logged_player_or_visu_twice first second reason again gs infos gl gls p q run fast only empty =
    let on : (is_running gs.game_state && gs.fast) ≡ true = rw (run, fast) refl in
    let t = heard-Told first gs gl gls p on only (rw empty refl) in
    let (d, left, e) = departure_returns first reason gs _ infos t in
    (
      d,
      left,
      kick_logged_player_or_visu_blocks second again d.global d.infos (hears first gl) gls q
          (rw (e, t.game_state, t.fast, on) refl) (ap (λ g. g.game_logic) e ∙ t.game_logic)
          (rw empty refl),
    )
