-- ===== src/Cleanup/Orders.antt =====
-- Whom the order to terminate reaches.
use netorcai.Prelude.{
  ℕ, ◌≡◌, refl, ◌∙◌, List, [], ◌∷◌, true, false, All, ◌==◌, arith, if◌then◌else◌,
}
use netorcai.Outcome.{returns, Chan, make_chan}
use netorcai.State.{ClientId, GlobalState, Reason, netorcai_abort}
use netorcai.Cleanup.{Terminations, recipients, send_orders, cleanup}

-- No client stands twice in the lists.
abbrev pub Apart : List ClientId → Type 0
Apart [] = Unit {0}
Apart (c ∷ cs) = All (λ d. (d == c) ≡ false) cs × Apart cs

abbrev pub ordered : Chan Reason
ordered = record { capacity = 1; queue = netorcai_abort ∷ [] }

flip : (a b : ℕ) → (a == b) ≡ false → (b == a) ≡ false
flip a b h = ground arith

same : (a : ℕ) → (a == a) ≡ true
same a = ground arith

ordered_to : ClientId → Terminations → Terminations
ordered_to c t q = if c == q then ordered else t q

others_empty :
    (c : ClientId) (t : Terminations) (cs : List ClientId)
    → All (λ d. (d == c) ≡ false) cs
    → All (λ d. t d ≡ make_chan 1) cs
    → All (λ d. ordered_to c t d ≡ make_chan 1) cs
unfolding ordered_to
others_empty c t [] apart empty = tt
others_empty c t (d ∷ cs) apart empty =
    (rw (flip d c apart.0) empty.0, others_empty c t cs apart.1 empty.1)

-- What the orders leave: each recipient has the order in its channel, the others have nothing new.
pub record Sent (cs : List ClientId) (t t' : Terminations) : Type 0 where
  pub sent : All (λ c. t' c ≡ ordered) cs
  pub kept : (q : ClientId) → All (λ c. (c == q) ≡ false) cs → t' q ≡ t q

send_orders-Sent :
    (cs : List ClientId) (t : Terminations)
    → Apart cs
    → All (λ c. t c ≡ make_chan 1) cs
    → (t' : Terminations) × (send_orders cs t ≡ returns t') × Sent cs t t'
unfolding send_orders ordered_to
send_orders-Sent [] t apart empty = (t, refl, record { sent = tt; kept = λ q h. refl })
send_orders-Sent (c ∷ cs) t apart empty =
    let (t', run, s) =
      send_orders-Sent cs (ordered_to c t) apart.1 (others_empty c t cs apart.0 empty.1) in
    (
      t',
      rw (empty.0) run,
      record {
        sent = (s.kept c apart.0 ∙ rw (same c) refl, s.sent);
        kept = λ q h. s.kept q h.1 ∙ rw (h.0) refl;
      },
    )

-- If no client stands twice in the lists and none has an order yet, `Cleanup` ends: every player,
-- special player, visualization and game logic has exactly one order to terminate, nobody else has one.
pub cleanup-Sent :
    (gs : GlobalState) (t : Terminations)
    → Apart (recipients gs)
    → All (λ c. t c ≡ make_chan 1) (recipients gs)
    → (t' : Terminations) × (cleanup gs t ≡ returns t') × Sent (recipients gs) t t'
unfolding cleanup
cleanup-Sent gs t apart empty = send_orders-Sent (recipients gs) t apart empty
