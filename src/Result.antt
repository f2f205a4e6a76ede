-- ===== src/Result.antt =====
-- Go's `(value, error)` results. `Error` has a constructor for each error that the program builds
-- (`fmt.Errorf` in readutil.go, messages.go and network.go), with the values that the text shows.
use netorcai.Prelude.{ℕ, ℤ, String, Bool, true, false, ◌≡◌, refl, ◌⊎◌, inl, inr}

pub data Error : Type 0 where
  missing_field non_string non_integral non_object non_array : String → Error
  not_an_integer not_a_float less_than_min greater_than_max : String → Error
  unexpected_type : String → String → Error
  invalid_nickname version_not_dotted : Error
  invalid_role version_mismatch : String → Error
  wrong_turn_number : ℤ → ℤ → Error
  winner_not_in : ℤ → Error
  read_failed write_failed non_json content_too_big unsupported_value : Error
  message_too_big : ℕ → Error

pub data Result {ℓ} (A : Type ℓ) : Type ℓ where
  ok : A → Result A
  err : Error → Result A

-- `if !test { return …, e }`
abbrev pub guard : Bool → Error → Result (Unit {0})
guard false reason = err reason
guard true reason = ok tt

infixl 5 ◌>>=◌
abbrev pub ◌>>=◌ {ℓ κ} : {A : Type ℓ} {B : Type κ} → Result A → (A → Result B) → Result B
err reason >>= next = err reason
ok value >>= next = next value

-- A test that returns nothing, and then the rest.
infixl 5 ◌>>◌
abbrev pub ◌>>◌ {κ} : {B : Type κ} → Result (Unit {0}) → Result B → Result B
err reason >> rest = err reason
ok _ >> rest = rest

pub >>=-eq-ok {ℓ κ} :
    {A : Type ℓ} {B : Type κ} (first : Result A) (next : A → Result B) {value : B}
    → (first >>= next) ≡ ok value
    → (a : A) × (first ≡ ok a) × (next a ≡ ok value)
>>=-eq-ok (err reason) next run = cc
>>=-eq-ok (ok a) next run = (a, refl, run)

pub Result-cases {ℓ} :
    {A : Type ℓ} (r : Result A) → ((a : A) × (r ≡ ok a)) ⊎ ((e : Error) × (r ≡ err e))
Result-cases (ok a) = inl (a, refl)
Result-cases (err e) = inr (e, refl)

pub ok_inj {ℓ} : {A : Type ℓ} {a b : A} → ok a ≡ ok b → a ≡ b
ok_inj h = cc
