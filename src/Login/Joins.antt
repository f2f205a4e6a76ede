-- ===== src/Login/Joins.antt =====
-- What a login does to the shared state.
use netorcai.Prelude.{
  pos, leb_ℤ, ◌<ℤ◌, leb, String, str_eq, ◌≡◌, refl, ◌⊎◌, inl, inr, false, not, [], ◌∷◌, ◌++◌,
  length, Bool-cases, arith,
}
use netorcai.Result.{Result}
use netorcai.Json.{Fields}
use netorcai.Messages.{MessageLogin}
use netorcai.State.{
  GameState, not_running, running, finished, Client, ClientId, GlobalState, GameLogicClient, Reason,
}
use netorcai.Outcome.{make_chan}
use netorcai.Login.{
  Ack, ack_sent, ack_failed, admit, admit_player, admit_special_player, admit_visu,
  admit_game_logic, acked, enter, handle_login, handle_client, first_message, is_not_running,
  gl_client, Verdict,
}

-- Nobody comes in, or one client is appended to the list of its role, in which there was room.
pub data Joins (gs : GlobalState) : GlobalState → Type 0 where
  nobody : Joins gs gs
  player :
      (c : ClientId)
      → gs.game_state ≡ not_running
      → pos (length gs.players) <ℤ gs.nb_players_max
      → Joins gs (record gs { players = gs.players ++ (c ∷ []) })
  special_player :
      (c : ClientId)
      → gs.game_state ≡ not_running
      → pos (length gs.special_players) <ℤ gs.nb_special_players_max
      → Joins gs (record gs { special_players = gs.special_players ++ (c ∷ []) })
  visu :
      (c : ClientId)
      → pos (length gs.visus) <ℤ gs.nb_visus_max
      → Joins gs (record gs { visus = gs.visus ++ (c ∷ []) })
  game_logic :
      (gl : GameLogicClient)
      → gs.game_state ≡ not_running
      → length gs.game_logic ≡ 0
      → gl.start ≡ make_chan 1
      → Joins gs (record gs { game_logic = gs.game_logic ++ (gl ∷ []) })

idle : (s : GameState) → not (is_not_running s) ≡ false → s ≡ not_running
idle not_running h = refl
idle running h = cc
idle finished h = cc

acked-Joins :
    (ack : Ack) (gs gs' : GlobalState) (v : Verdict)
    → Joins gs gs'
    → Joins gs (acked ack gs gs' v).0
unfolding acked
acked-Joins ack_sent gs gs' v j = j
acked-Joins ack_failed gs gs' v j = nobody

admit_player-Joins :
    (ack : Ack) (client : Client) (gs : GlobalState) → Joins gs (admit_player ack client gs).0
unfolding admit_player
admit_player-Joins ack client gs = elim (Bool-cases (not (is_not_running gs.game_state))) [
  | inl started ↦ rw started nobody
  | inr open_ ↦ elim (Bool-cases (leb_ℤ gs.nb_players_max (pos (length gs.players)))) [
    | inl full ↦ rw (open_, full) nobody
    | inr room ↦
        rw (open_, room)
          (acked-Joins ack gs _ _ (player client.conn (idle gs.game_state open_) (ground arith)))
  ]
]

admit_special_player-Joins :
    (ack : Ack) (client : Client) (gs : GlobalState)
    → Joins gs (admit_special_player ack client gs).0
unfolding admit_special_player
admit_special_player-Joins ack client gs = elim (Bool-cases (not (is_not_running gs.game_state))) [
  | inl started ↦ rw started nobody
  | inr open_ ↦
      elim (Bool-cases (leb_ℤ gs.nb_special_players_max (pos (length gs.special_players)))) [
        | inl full ↦ rw (open_, full) nobody
        | inr room ↦
            rw (open_, room)
              (acked-Joins ack gs _ _
                (special_player client.conn (idle gs.game_state open_) (ground arith)))
      ]
]

admit_visu-Joins :
    (ack : Ack) (client : Client) (gs : GlobalState) → Joins gs (admit_visu ack client gs).0
unfolding admit_visu
admit_visu-Joins ack client gs = elim (Bool-cases (leb_ℤ gs.nb_visus_max (pos (length gs.visus)))) [
  | inl full ↦ rw full nobody
  | inr room ↦ rw room (acked-Joins ack gs _ _ (visu client.conn (ground arith)))
]

admit_game_logic-Joins :
    (ack : Ack) (client : Client) (gs : GlobalState) → Joins gs (admit_game_logic ack client gs).0
unfolding admit_game_logic
admit_game_logic-Joins ack client gs = elim (Bool-cases (not (is_not_running gs.game_state))) [
  | inl started ↦ rw started nobody
  | inr open_ ↦ elim (Bool-cases (leb 1 (length gs.game_logic))) [
    | inl present ↦ rw (open_, present) nobody
    | inr absent ↦
        rw (open_, absent)
          (acked-Joins ack gs _ _
            (game_logic (gl_client client) (idle gs.game_state open_) (ground arith) refl))
  ]
]

enter-Joins :
    (ack : Ack) (client : Client) (role : String) (gs : GlobalState)
    → Joins gs (enter client gs (admit ack client role gs)).0
unfolding admit enter
enter-Joins ack client role gs = elim (Bool-cases (str_eq role "player")) [
  | inl e ↦ rw e (admit_player-Joins ack client gs)
  | inr n ↦ elim (Bool-cases (str_eq role "special player")) [
    | inl e ↦ rw (n, e) (admit_special_player-Joins ack client gs)
    | inr n' ↦ elim (Bool-cases (str_eq role "visualization")) [
      | inl e ↦ rw (n, n', e) (admit_visu-Joins ack client gs)
      | inr n'' ↦ elim (Bool-cases (str_eq role "game logic")) [
        | inl e ↦ rw (n, n', n'', e) (admit_game_logic-Joins ack client gs)
        | inr n''' ↦ rw (n, n', n'', n''') nobody
      ]
    ]
  ]
]

handle_login-Joins :
    (ack : Ack) (client : Client) (gs : GlobalState) (login : MessageLogin ⊎ Reason)
    → Joins gs (handle_login ack client gs login).0
unfolding handle_login
handle_login-Joins ack client gs (inl m) =
    enter-Joins ack (record client { nickname = m.nickname }) m.role gs
handle_login-Joins ack client gs (inr reason) = nobody

-- Whatever is received and whether or not the acknowledgement is sent: nobody comes in, or one client does, in
-- a role that has room and that the state of the game allows.
pub handle_client-Joins :
    (ack : Ack) (client : Client) (message : Result Fields) (gs : GlobalState)
    → Joins gs (handle_client ack client message gs).0
unfolding handle_client
handle_client-Joins ack client message gs = handle_login-Joins ack client gs (first_message message)
