-- ===== src/Outcome.antt =====
-- How a piece of a goroutine ends: with a value, in a panic (an index out of range), or never, as it
-- waits on a channel that nobody serves. `Chan` is a buffered channel.
use netorcai.Prelude.{
  ℕ, ◌≡◌, refl, ◌≢◌, ◌⊎◌, inl, inr, List, [], ◌∷◌, ◌++◌, Option, none, some, ltb, if◌then◌else◌,
  length,
}

pub data Outcome {ℓ} (A : Type ℓ) : Type ℓ where
  returns : A → Outcome A
  blocks : Outcome A
  panics : Outcome A

infixl 5 ◌>>=◌
abbrev pub ◌>>=◌ {ℓ κ} : {A : Type ℓ} {B : Type κ} → Outcome A → (A → Outcome B) → Outcome B
returns a >>= f = f a
blocks >>= f = blocks
panics >>= f = panics

-- `xs[i]`
abbrev pub or_panic {ℓ} : {A : Type ℓ} → Option A → Outcome A
or_panic none = panics
or_panic (some a) = returns a

pub record Chan {ℓ} (A : Type ℓ) : Type ℓ where
  pub capacity : ℕ
  pub queue : List A

-- `make(chan A, n)`
abbrev pub make_chan {ℓ} : {A : Type ℓ} → ℕ → Chan A
make_chan n = record { capacity = n; queue = [] }

-- `c <- a`, with no receiver ready: it waits if the buffer is full.
abbrev pub send {ℓ} : {A : Type ℓ} → A → Chan A → Outcome (Chan A)
send a c =
    if ltb (length c.queue) c.capacity
    then returns (record c { queue = c.queue ++ (a ∷ []) })
    else blocks

-- The first element that is received, and the channel without it.
abbrev pub receive {ℓ} : {A : Type ℓ} → Chan A → Option (A × Chan A)
receive c = elim c.queue [ [] ↦ none | a ∷ as_ ↦ some (a, record c { queue = as_ }) ]

pub >>=-eq-returns {ℓ κ} :
    {A : Type ℓ} {B : Type κ} (m : Outcome A) (f : A → Outcome B) {b : B}
    → (m >>= f) ≡ returns b
    → (a : A) × (m ≡ returns a) × (f a ≡ returns b)
>>=-eq-returns (returns a) f h = (a, refl, h)
>>=-eq-returns blocks f h = cc
>>=-eq-returns panics f h = cc

pub returns_inj {ℓ} : {A : Type ℓ} {a b : A} → returns a ≡ returns b → a ≡ b
returns_inj h = cc

pub Outcome-cases {ℓ} :
    {A : Type ℓ} (o : Outcome A) → ((a : A) × (o ≡ returns a)) ⊎ ((o ≡ blocks) ⊎ (o ≡ panics))
Outcome-cases (returns a) = inl (a, refl)
Outcome-cases blocks = inr (inl refl)
Outcome-cases panics = inr (inr refl)

pub returns_safe {ℓ} : {A : Type ℓ} {a : A} → returns a ≢ panics
returns_safe h = cc

-- A sequence of two pieces panics in one of them only.
pub >>=_safe {ℓ κ} :
    {A : Type ℓ} {B : Type κ} (m : Outcome A) (f : A → Outcome B)
    → m ≢ panics
    → ((a : A) → m ≡ returns a → f a ≢ panics)
    → (m >>= f) ≢ panics
>>=_safe (returns a) f h k = k a refl
>>=_safe blocks f h k = λ e. cc
>>=_safe panics f h k = absurd (h refl)
