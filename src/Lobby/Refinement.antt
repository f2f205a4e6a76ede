-- ===== src/Lobby/Refinement.antt =====
-- The shared state of control.go implements the lobby.
use mathlib.Core.Quot
use netorcai.Prelude.{
  pos, ◌<ℤ◌, ◌≤ℤ◌, ◌≡◌, refl, sym, ap, subst, ◌∙◌, inl, inr, List, [], ◌∷◌, ◌++◌, length,
  length-append, arith, Bool-cases,
}
use netorcai.Strconv.{Strconv}
use netorcai.Result.{ok}
use netorcai.Outcome.{returns}
use netorcai.Json.{Fields}
use netorcai.Main.{initialize_global_state}
use netorcai.State.{running, ClientId, PlayerOrVisuClient, GlobalState}
use netorcai.Login.Joins.{Joins, handle_client-Joins}
use netorcai.Login.Autostart.{autostart_cases}
use netorcai.Departure.Removal.{Lost}
use netorcai.Departure.Effects.{Leaves, kick_logged_player_or_visu-IsDeparture}
use netorcai.Prompt.Effects.{
  Effect, nothing, starts, sets_turns, sets_players, sets_special_players, sets_visus,
  sets_first_delay, sets_delay, executor_line-Effect,
}
use netorcai.Main.Settings.{initialize_global_state-IsInitial}
use netorcai.Server.{
  Step, login, starts_itself, departs, uses_channel, typed, Reach, begins, goes_on,
}
use netorcai.Lobby.Unordered.{of_list, put, size, size-of_list, put-of_list, of_list-append}
use netorcai.Lobby.{
  Role, Table, player, special_player, visu, Lobby, at, set_at, Move, stays, joins, leaves,
  logic_joins, game_starts, limit_set, IsOpen, History, opens, moves, IsEmpty, lobby_of,
}

-- An append at the end of the list of a role.
joins_last :
    (r : Role) (l : Lobby) (xs : List ClientId) (c : ClientId)
    → at r l.members ≡ of_list xs
    → IsOpen r l
    → pos (length xs) <ℤ at r l.limits
    → Move l (record l { members = set_at r (of_list (xs ++ (c ∷ []))) l.members })
joins_last r l xs c e free room =
    subst (λ b. Move l (record l { members = set_at r b l.members }))
      (ap (put c) e ∙ sym (of_list-append xs c))
      (joins r c free (omega (arith, ap size e ∙ size-of_list xs)))

Joins-Move : (gs gs' : GlobalState) → Joins gs gs' → Move (lobby_of gs) (lobby_of gs')
Joins-Move gs _ Joins.nobody = stays
Joins-Move gs _ (Joins.player c idle room) =
    joins_last player (lobby_of gs) gs.players c refl idle room
Joins-Move gs _ (Joins.special_player c idle room) =
    joins_last special_player (lobby_of gs) gs.special_players c refl idle room
Joins-Move gs _ (Joins.visu c room) = joins_last visu (lobby_of gs) gs.visus c refl tt room
Joins-Move gs _ (Joins.game_logic gl idle none fresh) =
    subst (λ n. Move (lobby_of gs) (record (lobby_of gs) { game_logics = n }))
      (omega (arith, none, length-append gs.game_logic (gl ∷ []))) (logic_joins idle none)

set_at-at : {A : Type 0} (r : Role) (t : Table A) → set_at r (at r t) t ≡ t
set_at-at player t = refl
set_at-at special_player t = refl
set_at-at visu t = refl

-- The list of a role after a departure.
Lost-Move :
    (r : Role) (l : Lobby) (c : ClientId) (xs left : List ClientId)
    → at r l.members ≡ of_list xs
    → Lost c xs left
    → Move l (record l { members = set_at r (of_list left) l.members })
Lost-Move r l c xs left e (inl p) =
    leaves r c (of_list left) (e ∙ sym (put-of_list c left ∙ Quot.sound p))
Lost-Move r l c xs left e (inr (same, absent)) =
    subst (λ t. Move l (record l { members = t }))
      (sym (ap (λ b. set_at r b l.members) (ap of_list same ∙ sym e) ∙ set_at-at r l.members)) stays

Leaves-Move :
    (pv : PlayerOrVisuClient) (gs gs' : GlobalState)
    → Leaves pv gs gs'
    → Move (lobby_of gs) (lobby_of gs')
Leaves-Move pv gs gs' v = elim (Bool-cases pv.is_player) [
  | inr looks ↦
      let (lost, e, e') = v.visu looks in
      subst (Move (lobby_of gs)) (ground arith)
        (Lost-Move visu (lobby_of gs) pv.client.conn gs.visus gs'.visus refl lost)
  | inl plays ↦ elim (Bool-cases pv.is_special_player) [
    | inl special ↦
        let (lost, e, e') = v.special_player plays special in
        subst (Move (lobby_of gs)) (ground arith) (
          Lost-Move special_player (lobby_of gs) pv.client.conn gs.special_players
            gs'.special_players refl lost)
    | inr usual ↦
        let (lost, e, e') = v.player plays usual in
        subst (Move (lobby_of gs)) (ground arith)
          (Lost-Move player (lobby_of gs) pv.client.conn gs.players gs'.players refl lost)
  ]
]

Effect-Move : (gs gs' : GlobalState) → Effect gs gs' → Move (lobby_of gs) (lobby_of gs')
Effect-Move gs _ nothing = stays
Effect-Move gs _ (starts gls idle one one') =
    subst (λ n. Move (lobby_of gs) (record (lobby_of gs) { game_state = running; game_logics = n }))
      (one ∙ sym one') (game_starts one)
Effect-Move gs _ (sets_turns n lo hi) = stays
Effect-Move gs _ (sets_players n lo hi) = limit_set player n lo hi
Effect-Move gs _ (sets_special_players n lo hi) = limit_set special_player n lo hi
Effect-Move gs _ (sets_visus n lo hi) = limit_set visu n lo hi
Effect-Move gs _ (sets_first_delay d fits) = stays
Effect-Move gs _ (sets_delay d fits) = stays

module _ (strconv : Strconv) where
  -- Each step of the server on the shared state is one move of the lobby that the state stands for, or none.
  pub Step-Move : (gs gs' : GlobalState) → Step strconv gs gs' → Move (lobby_of gs) (lobby_of gs')
  Step-Move _ _ (login ack client message gs) =
      Joins-Move gs _ (handle_client-Joins ack client message gs)
  Step-Move _ _ (starts_itself gs gs' h) = elim ((autostart_cases gs).1 gs' h) [
    | inl same ↦ subst (λ g. Move (lobby_of gs) (lobby_of g)) (sym same) stays
    | inr (gl, complete, room, e) ↦
        subst (λ g. Move (lobby_of gs) (lobby_of g)) (sym e)
          (subst
            (λ n.
              Move (lobby_of gs) (record (lobby_of gs) { game_state = running; game_logics = n }))
            (ap length complete.game_logic_only) (game_starts (ap length complete.game_logic_only)))
  ]
  Step-Move _ _ (departs pv reason gs infos d h) =
      Leaves-Move pv gs d.global
        (kick_logged_player_or_visu-IsDeparture pv reason gs infos d h).leaves
  Step-Move _ _ (uses_channel gs gl gl' gls one t) =
      subst (λ n. Move (lobby_of gs) (record (lobby_of gs) { game_logics = n })) (ap length one)
        stays
  Step-Move _ _ (typed text s s' h) =
      Effect-Move s.global s'.global (executor_line-Effect strconv text s s' h)

  begins-IsEmpty :
      (arguments : Fields) (gs : GlobalState)
      → initialize_global_state strconv arguments ≡ returns (ok gs)
      → IsEmpty (lobby_of gs)
  begins-IsEmpty arguments gs h =
      let f = initialize_global_state-IsInitial strconv arguments gs h in
      record {
        idle = f.idle;
        nobody = λ (r : Role). elim r as (λ k. at k (lobby_of gs).members ≡ of_list []) [
          | player ↦ ap of_list f.no_players
          | special_player ↦ ap of_list f.no_special_players
          | visu ↦ ap of_list f.no_visus
        ];
        no_logic = ap length f.nobody;
        bounded = λ (r : Role).
            elim r
              as (λ k.
                (pos 0 ≤ℤ at k (lobby_of gs).limits) × (at k (lobby_of gs).limits ≤ℤ pos 1024)) [
                  | player ↦ f.bounds.players
                  | special_player ↦ f.bounds.special_players
                  | visu ↦ f.bounds.visus
                ];
      }

  -- Whatever the clients and the operator do, in any order: the shared state is at every time one that the
  -- lobby comes to by moves of its own.
  pub Reach-History : (gs : GlobalState) → Reach strconv gs → History (lobby_of gs)
  Reach-History _ (begins arguments gs h) = opens (lobby_of gs) (begins-IsEmpty arguments gs h)
  Reach-History _ (goes_on gs gs' r s) =
      moves (lobby_of gs) (lobby_of gs') (Reach-History gs r) (Step-Move gs gs' s)
