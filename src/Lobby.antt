-- ===== src/Lobby.antt =====
-- What the server promises about who is in: a lobby that any caller could be told about, with no lists, channels
-- or messages in it. `Lobby/Refinement.antt` relates the shared state of control.go to it.
pub mod Unordered
pub mod Refinement
pub mod Order
use netorcai.Prelude.{ℕ, ℤ, pos, ◌≤ℤ◌, ◌<ℤ◌, ◌≡◌, length, []}
use netorcai.State.{GameState, not_running, running, ClientId, GlobalState}
use netorcai.Lobby.Unordered.{Bag, of_list, put, size}

pub data Role : Type 0 where
  player special_player visu : Role

-- One value for each role.
pub record Table (A : Type 0) : Type 0 where
  pub player : A
  pub special_player : A
  pub visu : A

abbrev pub at : {A : Type 0} → Role → Table A → A
at player t = t.player
at special_player t = t.special_player
at visu t = t.visu

abbrev pub set_at : {A : Type 0} → Role → A → Table A → Table A
set_at player a t = record t { player = a }
set_at special_player a t = record t { special_player = a }
set_at visu a t = record t { visu = a }

pub record Lobby : Type 0 where
  pub game_state : GameState
  pub members : Table Bag
  pub limits : Table ℤ
  pub game_logics : ℕ

-- A visualization may come at any time, a player before the game only.
abbrev pub IsOpen : Role → Lobby → Type 0
IsOpen player l = l.game_state ≡ not_running
IsOpen special_player l = l.game_state ≡ not_running
IsOpen visu l = Unit {0}

-- The least limit that can be typed.
abbrev pub least : Role → ℤ
least player = pos 1
least special_player = pos 0
least visu = pos 0

pub data Move (l : Lobby) : Lobby → Type 0 where
  stays : Move l l
  joins :
      (r : Role) (c : ClientId)
      → IsOpen r l
      → pos (size (at r l.members)) <ℤ at r l.limits
      → Move l (record l { members = set_at r (put c (at r l.members)) l.members })
  leaves :
      (r : Role) (c : ClientId) (others : Bag)
      → at r l.members ≡ put c others
      → Move l (record l { members = set_at r others l.members })
  logic_joins :
      l.game_state ≡ not_running → l.game_logics ≡ 0 → Move l (record l { game_logics = 1 })
  game_starts : l.game_logics ≡ 1 → Move l (record l { game_state = running })
  limit_set :
      (r : Role) (n : ℤ)
      → least r ≤ℤ n
      → n ≤ℤ pos 1024
      → Move l (record l { limits = set_at r n l.limits })

-- A lobby in which nobody is yet, with any limits that the command line accepts.
pub record IsEmpty (l : Lobby) : Type 0 where
  pub idle : l.game_state ≡ not_running
  pub nobody : (r : Role) → at r l.members ≡ of_list []
  pub no_logic : l.game_logics ≡ 0
  pub bounded : (r : Role) → (pos 0 ≤ℤ at r l.limits) × (at r l.limits ≤ℤ pos 1024)

pub data History : Lobby → Type 0 where
  opens : (l : Lobby) → IsEmpty l → History l
  moves : (l l' : Lobby) → History l → Move l l' → History l'

-- The lobby that the shared state stands for.
abbrev pub lobby_of : GlobalState → Lobby
lobby_of gs = record {
  game_state = gs.game_state;
  members = record {
    player = of_list gs.players;
    special_player = of_list gs.special_players;
    visu = of_list gs.visus;
  };
  limits = record {
    player = gs.nb_players_max;
    special_player = gs.nb_special_players_max;
    visu = gs.nb_visus_max;
  };
  game_logics = length gs.game_logic;
}
