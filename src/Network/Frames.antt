-- ===== src/Network/Frames.antt =====
-- One frame: what is written is what is read.
use mathlib.Core.List.{append_assoc}
use netorcai.Prelude.{
  ℕ, ◌+◌, ◌%◌, ◌^◌, ◌≤◌, ◌<◌, ◌≡◌, ap, sym, ◌∙◌, List, [], ◌∷◌, ◌++◌, Option, none, some, length,
  length-append, take-length_append, drop-length_append, arith, leb, ltb, false, true,
}
use netorcai.Result.{ok, ok_inj}
use netorcai.Json.{Fields}
use netorcai.Network.{
  put_uint32, uint32, read_full, Stage, send_message, parsed, read_size, read_client_message,
}

pub uint32-put_uint32 : (n : ℕ) → n < 2 ^ 32 → uint32 (put_uint32 n) ≡ n
unfolding uint32 put_uint32
uint32-put_uint32 n h = omega arith

pub read_full-append : (xs ys : List ℕ) → read_full (length xs) (xs ++ ys) ≡ some (xs, ys)
unfolding read_full
read_full-append xs ys = rw (fits, take-length_append xs ys, drop-length_append xs ys)
  where
    fits : leb (length xs) (length (xs ++ ys)) ≡ true
    fits = ground (arith, length-append xs ys)

pub read_full-put_uint32 :
    (n : ℕ) (ys : List ℕ) → read_full 4 (put_uint32 n ++ ys) ≡ some (put_uint32 n, ys)
unfolding put_uint32
read_full-put_uint32 n ys = read_full-append (put_uint32 n) ys

-- A content with its newline, as it stands in the stream.
abbrev pub line : List ℕ → List ℕ
line content = content ++ (b'\n' ∷ [])

length-line : (content : List ℕ) → length (line content) ≡ length content + 1
length-line content = length-append content (b'\n' ∷ [])

pub read_full-line :
    (content rest : List ℕ)
    → read_full (length content + 1) (line content ++ rest) ≡ some (line content, rest)
read_full-line content rest = rw (length-line content) at (read_full-append (line content) rest)

-- The size with the newline, little endian, then both.
unfoldable pub framed : List ℕ → List ℕ
framed content = put_uint32 (length content + 1) ++ line content

pub length-framed : (content : List ℕ) → length (framed content) ≡ length content + 5
unfolding framed put_uint32
length-framed content = omega (arith, length-line content)

pub send_message-framed :
    (content : List ℕ) → length content < 16777215 → send_message none content ≡ ok (framed content)
unfolding send_message framed
send_message-framed content h = rw test (ap (λ n. ok (put_uint32 n ++ line content)) fits)
  where
    test : leb 16777215 (length content) ≡ false
    test = ground arith

    fits : (length content % 2 ^ 32 + 1) % 2 ^ 32 ≡ length content + 1
    fits = omega arith

module _ (unmarshal : List ℕ → Option Fields) where
  -- A frame within the limit is read whole, and what follows it is left.
  pub read_client_message-framed :
      (max : ℕ) (content rest : List ℕ)
      → length content + 1 ≤ max
      → max < 2 ^ 32
      → read_client_message unmarshal max (framed content ++ rest)
        ≡ parsed (unmarshal (line content)) rest
  unfolding read_client_message framed
  read_client_message-framed max content rest h small = rw (
    append_assoc (put_uint32 (length content + 1)) (line content) rest,
    read_full-put_uint32 (length content + 1) (line content ++ rest),
    read_size,
    uint32-put_uint32 (length content + 1) (omega arith),
    within,
    read_full-line content rest,
  )
    where
      within : ltb max (length content + 1) ≡ false
      within = ground arith

-- What is sent without an error is the frame of a content below the limit.
pub send_message-ok :
    (fault : Option Stage) (content bytes : List ℕ)
    → send_message fault content ≡ ok bytes
    → (length content < 16777215) × (bytes ≡ framed content)
unfolding send_message
send_message-ok (some stage) content bytes h = ground arith
send_message-ok none content bytes h =
    let short : length content < 16777215 = ground arith in
    (short, ok_inj (sym h ∙ unfold send_message in send_message-framed content short))
