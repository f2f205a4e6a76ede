-- ===== src/Departure/Told.antt =====
-- control_pv.go: `KickLoggedPlayerOrVisu` when it ends, told of to the game logic or not.
use netorcai.Prelude.{
  ◌≡◌, refl, inl, inr, true, false, ◌&&◌, List, [], ◌∷◌, ◌++◌, length, ltb, if◌then◌else◌,
  Bool-cases,
}
use netorcai.Outcome.{returns}
use netorcai.State.{PlayerOrVisuClient, Infos, GameLogicClient, GlobalState, Reason}
use netorcai.Login.{kick}
use netorcai.Departure.{
  is_running, notify, tell_game_logic, depart_special_player, depart_player, depart_visu, depart,
  mark_disconnected, Departure, kick_logged_player_or_visu,
}
use netorcai.Departure.Removal.{remove_cases}

-- A departure behind which the game logics are those of `told`.
pub record Told (pv : PlayerOrVisuClient) (gs told : GlobalState) : Type 0 where
  pub after : GlobalState
  pub runs : depart pv gs ≡ returns after
  pub game_logic : after.game_logic ≡ told.game_logic
  pub game_state : after.game_state ≡ told.game_state
  pub fast : after.fast ≡ told.fast

player-Told :
    (pv : PlayerOrVisuClient) (gs told : GlobalState)
    → pv.is_player ≡ true
    → tell_game_logic pv.player_id gs ≡ returns told
    → Told pv gs told
unfolding depart depart_special_player depart_player
player-Told pv gs told player sent = elim (Bool-cases pv.is_special_player) [
  | inl special ↦
      let (left, run, lost) = remove_cases pv.client.conn told.special_players in
      record {
        after = record told { special_players = left };
        runs = rw (player, special, sent, run);
        game_logic = refl;
        game_state = refl;
        fast = refl;
      }
  | inr usual ↦
      let (left, run, lost) = remove_cases pv.client.conn told.players in
      record {
        after = record told { players = left };
        runs = rw (player, usual, sent, run);
        game_logic = refl;
        game_state = refl;
        fast = refl;
      }
]

pub visu-Told : (pv : PlayerOrVisuClient) (gs : GlobalState) → pv.is_player ≡ false → Told pv gs gs
unfolding depart depart_visu
visu-Told pv gs visu =
    let (left, run, lost) = remove_cases pv.client.conn gs.visus in
    record {
      after = record gs { visus = left };
      runs = rw (visu, run);
      game_logic = refl;
      game_state = refl;
      fast = refl;
    }

-- Nobody is told while no game runs, or with timers.
pub silent-Told :
    (pv : PlayerOrVisuClient) (gs : GlobalState)
    → (is_running gs.game_state && gs.fast) ≡ false
    → Told pv gs gs
unfolding tell_game_logic
silent-Told pv gs off = elim (Bool-cases pv.is_player) [
  | inl player ↦ player-Told pv gs gs player (rw off)
  | inr visu ↦ visu-Told pv gs visu
]

-- The game logic behind the disconnection of a player.
abbrev pub hears : PlayerOrVisuClient → GameLogicClient → GameLogicClient
hears pv gl = record gl {
  player_disconnected = record {
    capacity = gl.player_disconnected.capacity;
    queue = gl.player_disconnected.queue ++ (pv.player_id ∷ []);
  };
}

pub heard-Told :
    (pv : PlayerOrVisuClient) (gs : GlobalState) (gl : GameLogicClient) (gls : List GameLogicClient)
    → pv.is_player ≡ true
    → (is_running gs.game_state && gs.fast) ≡ true
    → gs.game_logic ≡ gl ∷ gls
    → ltb (length gl.player_disconnected.queue) gl.player_disconnected.capacity ≡ true
    → Told pv gs (record gs { game_logic = hears pv gl ∷ gls })
unfolding tell_game_logic notify
heard-Told pv gs gl gls player on only room = player-Told pv gs _ player (rw (on, only, room) refl)

pub departure_returns :
    (pv : PlayerOrVisuClient) (reason : Reason) (gs told : GlobalState) (infos : Infos)
    → (t : Told pv gs told)
    → (d : Departure) × (kick_logged_player_or_visu pv reason gs infos ≡ returns d)
      × (d.global ≡ t.after)
unfolding kick_logged_player_or_visu
departure_returns pv reason gs told infos t = (
  record {
    client = (kick pv.client reason).0;
    kicks = (kick pv.client reason).1;
    global = t.after;
    infos = if pv.is_player then mark_disconnected pv.player_info infos else infos;
  },
  rw t.runs refl,
  refl,
)
