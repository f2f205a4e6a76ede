-- ===== src/Login/Admission.antt =====
-- Who gets in.
use netorcai.Prelude.{
  ℕ, suc, ◌+◌, ◌≤◌, pos, ◌≤ℤ◌, String, ◌≡◌, refl, subst, ◌↔◌, ◌<◌, ◌<ℤ◌, Bool, true, false, ◌⊎◌,
  inl, inr, List, [], ◌∷◌, Option, none, some, length, length-append, arith, eq_iff,
}
use netorcai.Result.{Result}
use netorcai.Json.{Fields}
use netorcai.Messages.{MessageLogin}
use netorcai.State.{not_running, Client, GlobalState, Reason}
use netorcai.Login.{
  Ack, ack_sent, Verdict, refused, accepted_player_or_visu, accepted_game_logic, admit,
  handle_client, Entry, entered_player_or_visu, entered_game_logic, left, enter, handle_login,
  gl_client, first_message, is_not_running, kick,
}
use netorcai.Messages.Login.{IsRole}

-- No list is longer than its limit, and there is one game logic at most.
pub record WithinLimits (gs : GlobalState) : Type 0 where
  pub players_within : pos (length gs.players) ≤ℤ gs.nb_players_max
  pub special_players_within : pos (length gs.special_players) ≤ℤ gs.nb_special_players_max
  pub visus_within : pos (length gs.visus) ≤ℤ gs.nb_visus_max
  pub one_game_logic : length gs.game_logic ≤ 1

-- Whether the login manager took the client.
abbrev pub is_accepted : Option (GlobalState × Verdict) → Bool
is_accepted none = false
is_accepted (some (gs, refused r)) = false
is_accepted (some (gs, accepted_player_or_visu pv)) = true
is_accepted (some (gs, accepted_game_logic gl)) = true

-- Players and the game logic enter before the game starts only, a visualization at any time, each
-- while there is room for its role.
pub record HasRoom (role : String) (gs : GlobalState) : Type 0 where
  pub player_room :
      role ≡ "player"
      → (gs.game_state ≡ not_running) × (pos (length gs.players) <ℤ gs.nb_players_max)
  pub special_player_room :
      role ≡ "special player"
      → (gs.game_state ≡ not_running)
        × (pos (length gs.special_players) <ℤ gs.nb_special_players_max)
  pub visu_room : role ≡ "visualization" → pos (length gs.visus) <ℤ gs.nb_visus_max
  pub game_logic_room : role ≡ "game logic" → (gs.game_state ≡ not_running) × (gs.game_logic ≡ [])

empty_of_short {ℓ} : {A : Type ℓ} (xs : List A) → length xs < 1 → xs ≡ []
empty_of_short [] h = refl
empty_of_short (x ∷ xs) h = absurd (omega arith)

enter-WithinLimits :
    (ack : Ack) (client : Client) (role : String) (gs : GlobalState)
    → WithinLimits gs
    → WithinLimits (enter client gs (admit ack client role gs)).0
unfolding admit enter
enter-WithinLimits ack client role gs v = ground (
  arith,
  length-append gs.players (client.conn ∷ []),
  length-append gs.special_players (client.conn ∷ []),
  length-append gs.visus (client.conn ∷ []),
  length-append gs.game_logic (gl_client client ∷ []),
)

player_accepted :
    (ack : Ack) (client : Client) (gs : GlobalState)
    → is_accepted (admit ack client "player" gs) ≡ true
    → (gs.game_state ≡ not_running) × (pos (length gs.players) <ℤ gs.nb_players_max)
unfolding admit
player_accepted ack client gs h = ground arith

special_player_accepted :
    (ack : Ack) (client : Client) (gs : GlobalState)
    → is_accepted (admit ack client "special player" gs) ≡ true
    → (gs.game_state ≡ not_running) × (pos (length gs.special_players) <ℤ gs.nb_special_players_max)
unfolding admit
special_player_accepted ack client gs h = ground arith

visu_accepted :
    (ack : Ack) (client : Client) (gs : GlobalState)
    → is_accepted (admit ack client "visualization" gs) ≡ true
    → pos (length gs.visus) <ℤ gs.nb_visus_max
unfolding admit
visu_accepted ack client gs h = ground arith

game_logic_accepted :
    (ack : Ack) (client : Client) (gs : GlobalState)
    → is_accepted (admit ack client "game logic" gs) ≡ true
    → (gs.game_state ≡ not_running) × (gs.game_logic ≡ [])
unfolding admit
game_logic_accepted ack client gs h = ground (arith, empty_of_short gs.game_logic)

acked_accepted :
    (ack : Ack) (client : Client) (role : String) (gs : GlobalState)
    → is_accepted (admit ack client role gs) ≡ true
    → ack ≡ ack_sent
unfolding admit
acked_accepted ack client role gs h = ground arith

accepts-HasRoom :
    (ack : Ack) (client : Client) (role : String) (gs : GlobalState)
    → is_accepted (admit ack client role gs) ≡ true
    → (ack ≡ ack_sent) × HasRoom role gs
accepts-HasRoom ack client role gs h = (
  acked_accepted ack client role gs h,
  record {
    player_room = λ e. player_accepted ack client gs (cast e);
    special_player_room = λ e. special_player_accepted ack client gs (cast e);
    visu_room = λ e. visu_accepted ack client gs (cast e);
    game_logic_room = λ e. game_logic_accepted ack client gs (cast e);
  },
)
  where
    cast : {r : String} → role ≡ r → is_accepted (admit ack client r gs) ≡ true
    cast e = subst (λ r. is_accepted (admit ack client r gs) ≡ true) e h

HasRoom-accepts :
    (client : Client) (role : String) (gs : GlobalState)
    → IsRole role
    → HasRoom role gs
    → is_accepted (admit ack_sent client role gs) ≡ true
unfolding admit
HasRoom-accepts client role gs r h = ground (
  arith,
  eq_iff role "player",
  eq_iff role "special player",
  eq_iff role "visualization",
  eq_iff role "game logic",
)

-- A client with one of the four roles gets in exactly if there is room for its role and the
-- LOGIN_ACK is sent.
pub admit-accepts_iff :
    (ack : Ack) (client : Client) (role : String) (gs : GlobalState)
    → IsRole role
    → (is_accepted (admit ack client role gs) ≡ true) ↔ ((ack ≡ ack_sent) × HasRoom role gs)
admit-accepts_iff ack client role gs r =
    (accepts-HasRoom ack client role gs, λ h. rw (h.0) (HasRoom-accepts client role gs r h.1))

-- Whatever a client sends first, a login keeps every list within its limit and the game logic
-- single, if they were so before.
pub handle_client-WithinLimits :
    (ack : Ack) (client : Client) (message : Result Fields) (gs : GlobalState)
    → WithinLimits gs
    → WithinLimits (handle_client ack client message gs).0
unfolding handle_client
handle_client-WithinLimits ack client message gs v = go (first_message message)
  where
    go : (login : MessageLogin ⊎ Reason) → WithinLimits (handle_login ack client gs login).0
    go (inr reason) = v
    go (inl m) = enter-WithinLimits ack (record client { nickname = m.nickname }) m.role gs v

-- The clients that are logged in.
abbrev pub population : GlobalState → ℕ
population gs =
    length gs.players + length gs.special_players + length gs.visus + length gs.game_logic

abbrev pub is_left : Entry → Bool
is_left (left c ks) = true
is_left (entered_player_or_visu pv) = false
is_left (entered_game_logic gl) = false

pub record Effect (gs gs' : GlobalState) (e : Entry) : Type 0 where
  pub refused_unchanged : is_left e ≡ true → gs' ≡ gs
  pub entered_one : is_left e ≡ false → population gs' ≡ suc (population gs)
  pub players_frozen : is_not_running gs.game_state ≡ false → gs'.players ≡ gs.players
  pub special_players_frozen :
      is_not_running gs.game_state ≡ false → gs'.special_players ≡ gs.special_players
  pub game_logic_frozen : is_not_running gs.game_state ≡ false → gs'.game_logic ≡ gs.game_logic
  pub state_kept : gs'.game_state ≡ gs.game_state

enter-Effect :
    (ack : Ack) (client : Client) (role : String) (gs : GlobalState)
    → let (gs', e) = enter client gs (admit ack client role gs) in Effect gs gs' e
unfolding admit enter
enter-Effect ack client role gs = record {
  refused_unchanged = λ h. ground arith;
  entered_one = λ h. ground (
    arith,
    length-append gs.players (client.conn ∷ []),
    length-append gs.special_players (client.conn ∷ []),
    length-append gs.visus (client.conn ∷ []),
    length-append gs.game_logic (gl_client client ∷ []),
  );
  players_frozen = λ h. ground arith;
  special_players_frozen = λ h. ground arith;
  game_logic_frozen = λ h. ground arith;
  state_kept = ground arith;
}

-- A client that is turned away leaves the shared state as it was; one that gets in is one client
-- more. Once the game has started no player and no game logic gets in.
pub handle_client-Effect :
    (ack : Ack) (client : Client) (message : Result Fields) (gs : GlobalState)
    → let (gs', e) = handle_client ack client message gs in Effect gs gs' e
unfolding handle_client
handle_client-Effect ack client message gs = go (first_message message)
  where
    go :
        (login : MessageLogin ⊎ Reason)
        → let (gs', e) = handle_login ack client gs login in Effect gs gs' e
    go (inr reason) = unfold handle_login kick in ground arith
    go (inl m) = enter-Effect ack (record client { nickname = m.nickname }) m.role gs
