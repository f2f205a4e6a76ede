-- ===== src/Departure/Safety.antt =====
-- A departure never indexes an empty list of game logics.
use netorcai.Prelude.{
  ℤ, ◌≡◌, refl, ◌≢◌, inl, inr, true, ◌&&◌, List, [], ◌∷◌, length, arith, Bool-cases, &&-eq-true,
}
use netorcai.Outcome.{panics, returns_safe, >>=_safe}
use netorcai.State.{
  GameState, running, not_running, finished, PlayerOrVisuClient, Infos, GameLogicClient,
  GlobalState, Reason, ClientId,
}
use netorcai.Departure.{
  is_running, notify, tell_game_logic, remove, depart_special_player, depart_player, depart_visu,
  depart, kick_logged_player_or_visu,
}
use netorcai.Departure.Removal.{remove_cases}

pub single {ℓ} : {A : Type ℓ} (xs : List A) → length xs ≡ 1 → (a : A) × (xs ≡ a ∷ [])
single [] h = absurd (omega (arith, h))
single (a ∷ []) h = (a, refl)
single (a ∷ b ∷ xs) h = absurd (omega (arith, h))

pub is_running-eq : (s : GameState) → is_running s ≡ true → s ≡ running
is_running-eq running h = refl
is_running-eq not_running h = cc
is_running-eq finished h = cc

notify_safe :
    (player_id : ℤ) (gls : List GameLogicClient) → length gls ≡ 1 → notify player_id gls ≢ panics
unfolding notify
notify_safe player_id [] h e = absurd (omega (arith, h))
notify_safe player_id (gl ∷ gls) h e = ground arith

tell_safe :
    (player_id : ℤ) (gs : GlobalState)
    → (gs.game_state ≡ running → length gs.game_logic ≡ 1)
    → tell_game_logic player_id gs ≢ panics
unfolding tell_game_logic
tell_safe player_id gs h = elim (Bool-cases (is_running gs.game_state && gs.fast)) [
  | inl on ↦
      let one = h (is_running-eq gs.game_state (&&-eq-true _ _ on).0) in
      rw on (
        >>=_safe (notify player_id gs.game_logic) _ (notify_safe player_id gs.game_logic one)
          (λ a q. returns_safe))
  | inr off ↦ rw off returns_safe
]

remove_safe : (conn : ClientId) (clients : List ClientId) → remove conn clients ≢ panics
remove_safe conn clients = let (left, run, _) = remove_cases conn clients in rw run returns_safe

depart_safe :
    (pv : PlayerOrVisuClient) (gs : GlobalState)
    → (gs.game_state ≡ running → length gs.game_logic ≡ 1)
    → depart pv gs ≢ panics
unfolding depart depart_player depart_special_player depart_visu
depart_safe pv gs h = elim (Bool-cases pv.is_player) [
  | inr visu ↦ rw visu (
      >>=_safe (remove pv.client.conn gs.visus) _ (remove_safe pv.client.conn gs.visus)
        (λ a q. returns_safe))
  | inl player ↦ elim (Bool-cases pv.is_special_player) [
    | inl special ↦
        rw (player, special)
          (>>=_safe (tell_game_logic pv.player_id gs) _ (tell_safe pv.player_id gs h) (λ told q.
            >>=_safe (remove pv.client.conn told.special_players) _
              (remove_safe pv.client.conn told.special_players) (λ a q'. returns_safe)))
    | inr usual ↦
        rw (player, usual)
          (>>=_safe (tell_game_logic pv.player_id gs) _ (tell_safe pv.player_id gs h) (λ told q.
            >>=_safe (remove pv.client.conn told.players) _
              (remove_safe pv.client.conn told.players) (λ a q'. returns_safe)))
  ]
]

-- If a running game has its game logic, a departure does not panic, in fast mode either.
pub kick_logged_player_or_visu_safe :
    (pv : PlayerOrVisuClient) (reason : Reason) (gs : GlobalState) (infos : Infos)
    → (gs.game_state ≡ running → length gs.game_logic ≡ 1)
    → kick_logged_player_or_visu pv reason gs infos ≢ panics
unfolding kick_logged_player_or_visu
kick_logged_player_or_visu_safe pv reason gs infos h =
    >>=_safe (depart pv gs) _ (depart_safe pv gs h) (λ gs' q. returns_safe)
