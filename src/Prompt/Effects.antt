-- ===== src/Prompt/Effects.antt =====
-- What a typed line does to the shared state.
use netorcai.Prelude.{
  ◌∙◌, refl, ==_iff, List, [], ◌∷◌, ◌≤ℤ◌, ℤ, pos, leb_ℤ, String, codes, ◌≡◌, subst, Bool, true,
  false, ◌&&◌, Option, none, some, length, ◌==◌, arith, str_eq, Bool-cases, inl, inr, &&-eq-true,
  if◌then◌else◌,
}
use netorcai.Float64
use netorcai.Float64.{Float64, of_int, le, lt}
use netorcai.Strconv.{Strconv}
use netorcai.Outcome.{returns, returns_inj, >>=-eq-returns, send}
use netorcai.State.{GameState, not_running, running, finished, GlobalState, GameLogicClient}
use netorcai.Login.{is_not_running, send_start}
use netorcai.Prompt.Lines.{Line, start, quit, print, set, malformed, ignored, parse_line}
use netorcai.Prompt.{
  executor_line, Shell, set_int, set_delay, assign, execute_set, execute_start, execute_quit,
  executor, says, string_in_slice, accepted_set_variables,
}

-- Neither below 50 nor above 10000 milliseconds.
abbrev pub IsDelay : Float64 → Type 0
IsDelay d = (Float64.lt d (of_int (pos 50)) ≡ false) × (Float64.lt (of_int (pos 10000)) d ≡ false)

-- Nothing, the start order to the one game logic, or one parameter within its bounds.
pub data Effect (gs : GlobalState) : GlobalState → Type 0 where
  nothing : Effect gs gs
  starts :
      (gls : List GameLogicClient)
      → gs.game_state ≡ not_running
      → length gs.game_logic ≡ 1
      → length gls ≡ 1
      → Effect gs (record gs { game_state = running; game_logic = gls })
  sets_turns : (n : ℤ) → pos 1 ≤ℤ n → n ≤ℤ pos 65535 → Effect gs (record gs { nb_turns_max = n })
  sets_players : (n : ℤ) → pos 1 ≤ℤ n → n ≤ℤ pos 1024 → Effect gs (record gs { nb_players_max = n })
  sets_special_players :
      (n : ℤ) → pos 0 ≤ℤ n → n ≤ℤ pos 1024 → Effect gs (record gs { nb_special_players_max = n })
  sets_visus : (n : ℤ) → pos 0 ≤ℤ n → n ≤ℤ pos 1024 → Effect gs (record gs { nb_visus_max = n })
  sets_first_delay :
      (d : Float64) → IsDelay d → Effect gs (record gs { milliseconds_before_first_turn = d })
  sets_delay : (d : Float64) → IsDelay d → Effect gs (record gs { milliseconds_between_turns = d })

le-not_lt : (a b : Float64) → Float64.le a b ≡ true → Float64.lt b a ≡ false
unfolding Float64.le Float64.lt
le-not_lt a b h = ground arith

pub not_running-eq : (s : GameState) → is_not_running s ≡ true → s ≡ not_running
not_running-eq not_running h = refl
not_running-eq running h = cc
not_running-eq finished h = cc

send_start-length :
    (gls gls' : List GameLogicClient) → send_start gls ≡ returns gls' → length gls' ≡ length gls
unfolding send_start
send_start-length [] gls' h = cc
send_start-length (gl ∷ gls) gls' h = ground arith

set_int-Effect :
    (v : Option ℤ) (lo hi : ℤ) (store : ℤ → GlobalState) (s : Shell)
    → ((n : ℤ) → lo ≤ℤ n → n ≤ℤ hi → Effect s.global (store n))
    → Effect s.global (set_int v lo hi store s).global
unfolding set_int
set_int-Effect none lo hi store s each = nothing
set_int-Effect (some v) lo hi store s each = elim (Bool-cases (leb_ℤ lo v && leb_ℤ v hi)) [
  | inl inside ↦ rw inside (each v (ground arith) (ground arith))
  | inr outside ↦ rw outside nothing
]

set_delay-Effect :
    (d : Option Float64) (store : Float64 → GlobalState) (s : Shell)
    → ((d : Float64) → IsDelay d → Effect s.global (store d))
    → Effect s.global (set_delay d store s).global
unfolding set_delay
set_delay-Effect none store s each = nothing
set_delay-Effect (some d) store s each =
    elim (Bool-cases (Float64.le (of_int (pos 50)) d && Float64.le d (of_int (pos 10000)))) [
      | inl inside ↦
          let (above, below) = &&-eq-true _ _ inside in
          rw inside (each d (le-not_lt _ _ above, le-not_lt _ _ below))
      | inr outside ↦ rw outside nothing
    ]

if-Effect :
    (b : Bool) (gs : GlobalState) (x y : Shell)
    → Effect gs x.global
    → Effect gs y.global
    → Effect gs (if b then x else y).global
if-Effect true gs x y v w = v
if-Effect false gs x y v w = w

assign-Effect :
    (v : String) (i : Option ℤ) (d : Option Float64) (s : Shell)
    → Effect s.global (assign v i d s).global
unfolding assign
assign-Effect v i d s =
    if-Effect (str_eq v "nb-turns-max") s.global _ _
      (set_int-Effect i (pos 1) (pos 65535) (λ n. record (s.global) { nb_turns_max = n }) s
        (λ n lo hi. sets_turns n lo hi))
      (if-Effect (str_eq v "nb-players-max") s.global _ _
        (set_int-Effect i (pos 1) (pos 1024) (λ n. record (s.global) { nb_players_max = n }) s
          (λ n lo hi. sets_players n lo hi))
        (if-Effect (str_eq v "nb-splayers-max") s.global _ _
          (set_int-Effect i (pos 0) (pos 1024)
            (λ n. record (s.global) { nb_special_players_max = n }) s
            (λ n lo hi. sets_special_players n lo hi))
          (if-Effect (str_eq v "nb-visus-max") s.global _ _
            (set_int-Effect i (pos 0) (pos 1024) (λ n. record (s.global) { nb_visus_max = n }) s
              (λ n lo hi. sets_visus n lo hi))
            (if-Effect (str_eq v "delay-first-turn") s.global _ _
              (set_delay-Effect d (λ x. record (s.global) { milliseconds_before_first_turn = x }) s
                (λ x fits. sets_first_delay x fits))
              (if-Effect (str_eq v "delay-turns") s.global _ _
                (set_delay-Effect d (λ x. record (s.global) { milliseconds_between_turns = x }) s
                  (λ x fits. sets_delay x fits))
                nothing)))))

start-Effect : (s s' : Shell) → execute_start s ≡ returns s' → Effect s.global s'.global
unfolding execute_start says
start-Effect s s' h = elim (Bool-cases (is_not_running s.global.game_state)) [
  | inr already ↦ subst (λ q. Effect s.global q.global) (returns_inj (rw already at h)) nothing
  | inl idle ↦ elim (Bool-cases (length s.global.game_logic == 1)) [
    | inr absent ↦
        subst (λ q. Effect s.global q.global) (returns_inj (rw (idle, absent) at h)) nothing
    | inl one ↦
        let (gls, sent, e) =
          >>=-eq-returns (send_start s.global.game_logic) _ (rw (idle, one) at h) in
        let only = (==_iff _ _).0 one in
        subst (λ q. Effect s.global q.global) (returns_inj e)
          (starts gls (not_running-eq s.global.game_state idle) only
            (send_start-length s.global.game_logic gls sent ∙ only))
  ]
]

quit-Effect : (s s' : Shell) → execute_quit s ≡ returns s' → Effect s.global s'.global
unfolding execute_quit
quit-Effect s s' h =
    let (exit, _, e) = >>=-eq-returns (send 0 s.exit) _ h in
    subst (λ q. Effect s.global q.global) (returns_inj e) nothing

-- Whatever line is typed, it changes nothing, gives the one game logic the start order and sets the
-- game running, or sets one parameter to a value within its bounds.
pub executor-Effect :
    (strconv : Strconv) (line : Line) (s s' : Shell)
    → executor strconv line s ≡ returns s'
    → Effect s.global s'.global
unfolding executor execute_set says
executor-Effect strconv start s s' h = start-Effect s s' h
executor-Effect strconv quit s s' h = quit-Effect s s' h
executor-Effect strconv (print v) s s' h =
    subst (λ q. Effect s.global q.global) (returns_inj h) nothing
executor-Effect strconv (set v value) s s' h =
    subst (λ q. Effect s.global q.global) (returns_inj h)
      (if-Effect (string_in_slice v accepted_set_variables) s.global _ _
        (assign-Effect v (strconv.parse_int (codes value) 64) (strconv.parse_float (codes value) 64)
          s)
        nothing)
executor-Effect strconv malformed s s' h =
    subst (λ q. Effect s.global q.global) (returns_inj h) nothing
executor-Effect strconv ignored s s' h =
    subst (λ q. Effect s.global q.global) (returns_inj h) nothing

pub executor_line-Effect :
    (strconv : Strconv) (text : String) (s s' : Shell)
    → executor_line strconv text s ≡ returns s'
    → Effect s.global s'.global
unfolding executor_line
executor_line-Effect strconv text s s' h = executor-Effect strconv (parse_line text) s s' h
