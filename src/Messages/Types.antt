-- ===== src/Messages/Types.antt =====
-- What `checkMessageType` and `ReadInt` say of a field.
use netorcai.Prelude.{ℤ, String, ◌≡◌, ◌↔◌, refl, inl, inr, arith, eq_iff, Option, none, some}
use netorcai.Result.{ok, Result-cases}
use netorcai.Float64.{Float64, to_int}
use netorcai.Json.{Value, null, bool, number, text, array, object, Fields, lookup}
use netorcai.ReadUtil.{read_string, read_int}
use netorcai.Messages.{check_message_type}

-- A message passes only with a field "message_type" of that very text.
pub check_message_type-ok :
    (message : Fields) (expected : String)
    → check_message_type message expected ≡ ok tt
    → read_string message "message_type" ≡ ok expected
unfolding check_message_type
check_message_type-ok message expected h =
    elim (Result-cases (read_string message "message_type")) [
      | inl (s, e) ↦ ground (arith, eq_iff s expected)
      | inr (x, e) ↦ ground arith
    ]

-- A JSON number under `field`, which the conversion to an integer takes to `n`.
abbrev pub ReadsInt : Fields → String → ℤ → Type 0
ReadsInt message field n = (f : Float64) × (lookup message field ≡ some (number f)) × (to_int f ≡ n)

-- `ReadInt` yields an integer exactly from a number that converts to it.
pub read_int-ReadsInt :
    (message : Fields) (field : String) (n : ℤ)
    → (read_int message field ≡ ok n) ↔ ReadsInt message field n
unfolding read_int
read_int-ReadsInt message field n =
    ((λ h. sound (lookup message field) refl h), λ v. (let (f, at, converted) = v in ground arith))
  where
    sound :
        (o : Option Value)
        → lookup message field ≡ o
        → read_int message field ≡ ok n
        → ReadsInt message field n
    sound none e h = absurd (ground arith)
    sound (some (number f)) e h = (f, e, ground arith)
    sound (some null) e h = absurd (ground arith)
    sound (some (bool b)) e h = absurd (ground arith)
    sound (some (text s)) e h = absurd (ground arith)
    sound (some (array xs)) e h = absurd (ground arith)
    sound (some (object o)) e h = absurd (ground arith)
