-- ===== src/Prompt/Bounds.antt =====
-- The parameters of the game stay within their bounds, whatever is typed.
use netorcai.Prelude.{◌≤ℤ◌, ◌≡◌, pos, arith}
use netorcai.Strconv.{Strconv}
use netorcai.Outcome.{returns}
use netorcai.State.{GlobalState}
use netorcai.Prompt.Lines.{Line}
use netorcai.Prompt.{Shell, executor}
use netorcai.Prompt.Effects.{
  IsDelay, Effect, nothing, starts, sets_turns, sets_players, sets_special_players, sets_visus,
  sets_first_delay, sets_delay, executor-Effect,
}

pub record WithinBounds (gs : GlobalState) : Type 0 where
  pub turns : (pos 1 ≤ℤ gs.nb_turns_max) × (gs.nb_turns_max ≤ℤ pos 65535)
  pub players : (pos 0 ≤ℤ gs.nb_players_max) × (gs.nb_players_max ≤ℤ pos 1024)
  pub special_players :
      (pos 0 ≤ℤ gs.nb_special_players_max) × (gs.nb_special_players_max ≤ℤ pos 1024)
  pub visus : (pos 0 ≤ℤ gs.nb_visus_max) × (gs.nb_visus_max ≤ℤ pos 1024)
  pub first_delay : IsDelay gs.milliseconds_before_first_turn
  pub delay : IsDelay gs.milliseconds_between_turns

pub Effect-WithinBounds :
    (gs gs' : GlobalState) → Effect gs gs' → WithinBounds gs → WithinBounds gs'
Effect-WithinBounds gs _ nothing b = b
Effect-WithinBounds gs _ (starts gls idle one one') b = record {
  turns = b.turns;
  players = b.players;
  special_players = b.special_players;
  visus = b.visus;
  first_delay = b.first_delay;
  delay = b.delay;
}
Effect-WithinBounds gs _ (sets_turns n lo hi) b = record {
  turns = (lo, hi);
  players = b.players;
  special_players = b.special_players;
  visus = b.visus;
  first_delay = b.first_delay;
  delay = b.delay;
}
Effect-WithinBounds gs _ (sets_players n lo hi) b = record {
  turns = b.turns;
  players = (omega (arith, lo), hi);
  special_players = b.special_players;
  visus = b.visus;
  first_delay = b.first_delay;
  delay = b.delay;
}
Effect-WithinBounds gs _ (sets_special_players n lo hi) b = record {
  turns = b.turns;
  players = b.players;
  special_players = (lo, hi);
  visus = b.visus;
  first_delay = b.first_delay;
  delay = b.delay;
}
Effect-WithinBounds gs _ (sets_visus n lo hi) b = record {
  turns = b.turns;
  players = b.players;
  special_players = b.special_players;
  visus = (lo, hi);
  first_delay = b.first_delay;
  delay = b.delay;
}
Effect-WithinBounds gs _ (sets_first_delay d fits) b = record {
  turns = b.turns;
  players = b.players;
  special_players = b.special_players;
  visus = b.visus;
  first_delay = fits;
  delay = b.delay;
}
Effect-WithinBounds gs _ (sets_delay d fits) b = record {
  turns = b.turns;
  players = b.players;
  special_players = b.special_players;
  visus = b.visus;
  first_delay = b.first_delay;
  delay = fits;
}

-- Whatever line is typed, if the command returns and they were so before: the numbers of turns, players, special players and visualizations and the
-- two delays stay within the bounds that the command line demands.
pub executor-WithinBounds :
    (strconv : Strconv) (line : Line) (s s' : Shell)
    → executor strconv line s ≡ returns s'
    → WithinBounds s.global
    → WithinBounds s'.global
executor-WithinBounds strconv line s s' h b =
    Effect-WithinBounds s.global s'.global (executor-Effect strconv line s s' h) b
