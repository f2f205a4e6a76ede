-- ===== src/Departure/Effects.antt =====
-- What a departure changes, and what it leaves alone.
use netorcai.Prelude.{
  ℤ, ◌≡◌, ◌≢◌, inl, inr, true, false, ◌&&◌, List, [], ◌∷◌, some, length, arith, Bool-cases,
}
use netorcai.Outcome.{returns, >>=-eq-returns, returns_inj}
use netorcai.State.{
  kicked, ClientId, PlayerOrVisuClient, Infos, GameLogicClient, GlobalState, Reason,
}
use netorcai.Departure.{
  is_running, notify, tell_game_logic, remove, depart_special_player, depart_player, depart_visu,
  depart, Departure, kick_logged_player_or_visu,
}
use netorcai.Departure.Removal.{Lost, remove-Lost}

-- Everything but the list of game logics.
pub record Keeps (gs gs' : GlobalState) : Type 0 where
  pub game_state : gs'.game_state ≡ gs.game_state
  pub players : gs'.players ≡ gs.players
  pub special_players : gs'.special_players ≡ gs.special_players
  pub visus : gs'.visus ≡ gs.visus
  pub players_max : gs'.nb_players_max ≡ gs.nb_players_max
  pub special_players_max : gs'.nb_special_players_max ≡ gs.nb_special_players_max
  pub visus_max : gs'.nb_visus_max ≡ gs.nb_visus_max
  pub turns_max : gs'.nb_turns_max ≡ gs.nb_turns_max
  pub first_delay : gs'.milliseconds_before_first_turn ≡ gs.milliseconds_before_first_turn
  pub delay : gs'.milliseconds_between_turns ≡ gs.milliseconds_between_turns
  pub count : length gs'.game_logic ≡ length gs.game_logic

length-notify :
    (player_id : ℤ) (gls gls' : List GameLogicClient)
    → notify player_id gls ≡ returns gls'
    → length gls' ≡ length gls
unfolding notify
length-notify player_id [] gls' h = cc
length-notify player_id (gl ∷ gls) gls' h = ground arith

tell_game_logic-Keeps :
    (player_id : ℤ) (gs gs' : GlobalState)
    → tell_game_logic player_id gs ≡ returns gs'
    → Keeps gs gs'
unfolding tell_game_logic
tell_game_logic-Keeps player_id gs gs' h = elim (Bool-cases (is_running gs.game_state && gs.fast)) [
  | inl on ↦
      let (gls, told, e) = >>=-eq-returns (notify player_id gs.game_logic) _ (rw on at h) in
      ground (arith, length-notify player_id gs.game_logic gls told)
  | inr off ↦ ground arith
]

-- A departure takes the client out of the list of its role and leaves the two other lists alone.
pub record Leaves (pv : PlayerOrVisuClient) (gs gs' : GlobalState) : Type 0 where
  pub game_state : gs'.game_state ≡ gs.game_state
  pub player :
      pv.is_player ≡ true
      → pv.is_special_player ≡ false
      → Lost pv.client.conn gs.players gs'.players
        × (gs'.special_players ≡ gs.special_players)
        × (gs'.visus ≡ gs.visus)
  pub special_player :
      pv.is_player ≡ true
      → pv.is_special_player ≡ true
      → Lost pv.client.conn gs.special_players gs'.special_players
        × (gs'.players ≡ gs.players)
        × (gs'.visus ≡ gs.visus)
  pub visu :
      pv.is_player ≡ false
      → Lost pv.client.conn gs.visus gs'.visus
        × (gs'.players ≡ gs.players)
        × (gs'.special_players ≡ gs.special_players)
  pub players_max : gs'.nb_players_max ≡ gs.nb_players_max
  pub special_players_max : gs'.nb_special_players_max ≡ gs.nb_special_players_max
  pub visus_max : gs'.nb_visus_max ≡ gs.nb_visus_max
  pub turns_max : gs'.nb_turns_max ≡ gs.nb_turns_max
  pub first_delay : gs'.milliseconds_before_first_turn ≡ gs.milliseconds_before_first_turn
  pub delay : gs'.milliseconds_between_turns ≡ gs.milliseconds_between_turns
  pub count : length gs'.game_logic ≡ length gs.game_logic

depart_player-Leaves :
    (pv : PlayerOrVisuClient) (gs gs' : GlobalState)
    → depart_player pv gs ≡ returns gs'
    → Keeps (record gs { players = gs'.players }) gs' × Lost pv.client.conn gs.players gs'.players
unfolding depart_player
depart_player-Leaves pv gs gs' h =
    let (told, t, h₁) = >>=-eq-returns (tell_game_logic pv.player_id gs) _ h in
    let (left, r, h₂) = >>=-eq-returns (remove pv.client.conn told.players) _ h₁ in
    let k = tell_game_logic-Keeps pv.player_id gs told t in
    let e = returns_inj h₂ in
    (ground arith, ground (arith, remove-Lost pv.client.conn told.players left r))

depart_special_player-Leaves :
    (pv : PlayerOrVisuClient) (gs gs' : GlobalState)
    → depart_special_player pv gs ≡ returns gs'
    → Keeps (record gs { special_players = gs'.special_players }) gs'
      × Lost pv.client.conn gs.special_players gs'.special_players
unfolding depart_special_player
depart_special_player-Leaves pv gs gs' h =
    let (told, t, h₁) = >>=-eq-returns (tell_game_logic pv.player_id gs) _ h in
    let (left, r, h₂) = >>=-eq-returns (remove pv.client.conn told.special_players) _ h₁ in
    let k = tell_game_logic-Keeps pv.player_id gs told t in
    let e = returns_inj h₂ in
    (ground arith, ground (arith, remove-Lost pv.client.conn told.special_players left r))

depart_visu-Leaves :
    (pv : PlayerOrVisuClient) (gs gs' : GlobalState)
    → depart_visu pv gs ≡ returns gs'
    → Keeps (record gs { visus = gs'.visus }) gs' × Lost pv.client.conn gs.visus gs'.visus
unfolding depart_visu
depart_visu-Leaves pv gs gs' h =
    let (left, r, e) = >>=-eq-returns (remove pv.client.conn gs.visus) _ h in
    let e' = returns_inj e in
    (ground arith, ground (arith, remove-Lost pv.client.conn gs.visus left r))

depart-Leaves :
    (pv : PlayerOrVisuClient) (gs gs' : GlobalState) → depart pv gs ≡ returns gs' → Leaves pv gs gs'
unfolding depart
depart-Leaves pv gs gs' h = elim (Bool-cases pv.is_player) [
  | inr visu ↦ let (keeps, lost) = depart_visu-Leaves pv gs gs' (rw visu at h) in ground arith
  | inl player ↦ elim (Bool-cases pv.is_special_player) [
    | inl special ↦
        let (keeps, lost) = depart_special_player-Leaves pv gs gs' (rw (player, special) at h) in
        ground arith
    | inr usual ↦
        let (keeps, lost) = depart_player-Leaves pv gs gs' (rw (player, usual) at h) in ground arith
  ]
]

-- What `KickLoggedPlayerOrVisu` leaves behind.
pub record IsDeparture (pv : PlayerOrVisuClient) (reason : Reason) (gs : GlobalState)
    (infos : Infos) (d : Departure) : Type 0 where
  pub leaves : Leaves pv gs d.global
  pub kicked_out : d.client.state ≡ kicked
  pub told_once : pv.client.state ≢ kicked → d.kicks ≡ reason ∷ []
  pub marked :
      (p : ClientId)
      → pv.is_player ≡ true
      → pv.player_info ≡ some p
      → (d.infos p ≡ record (infos p) { is_connected = false })
        × ((q : ClientId) → p ≢ q → d.infos q ≡ infos q)
  pub visu_unmarked : pv.is_player ≡ false → d.infos ≡ infos

-- If it ends, the departure takes the client out of the list of its role and of no other, kicks it
-- once, and marks a player's information, and no other, as disconnected.
pub kick_logged_player_or_visu-IsDeparture :
    (pv : PlayerOrVisuClient) (reason : Reason) (gs : GlobalState) (infos : Infos) (d : Departure)
    → kick_logged_player_or_visu pv reason gs infos ≡ returns d
    → IsDeparture pv reason gs infos d
unfolding kick_logged_player_or_visu
kick_logged_player_or_visu-IsDeparture pv reason gs infos d h =
    let (gs', run, h₁) = >>=-eq-returns (depart pv gs) _ h in
    let e = returns_inj h₁ in
    record {
      leaves = ground (arith, depart-Leaves pv gs gs' run);
      kicked_out = ground arith;
      told_once = λ alive. ground arith;
      marked = λ p player info. (ground arith, λ q other. ground arith);
      visu_unmarked = λ visu. ground arith;
    }
