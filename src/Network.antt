-- ===== src/Network.antt =====
-- network.go: the framing of messages on a socket. A stream is the list of the bytes that the
-- remote end sends before it closes the connection; `json.Unmarshal` into a map is a parameter.
pub mod Accept
pub mod Frames
pub mod Delivery
use netorcai.Prelude.{
  ℕ, zero, suc, ◌+◌, ◌*◌, ◌/◌, ◌%◌, ◌^◌, List, [], ◌∷◌, ◌++◌, Bool, true, false, Option, none, some,
  leb, ltb, if◌then◌else◌, length, take, drop,
}
use netorcai.Result.{
  Result, ok, err, read_failed, write_failed, non_json, content_too_big, message_too_big,
}
use netorcai.Json.{Fields}

-- `binary.LittleEndian.PutUint32`
unfoldable pub put_uint32 : ℕ → List ℕ
put_uint32 n = n % 256 ∷ (n / 256 % 256) ∷ (n / 65536 % 256) ∷ (n / 16777216 % 256) ∷ []

-- `binary.LittleEndian.Uint32`
unfoldable pub uint32 : List ℕ → ℕ
uint32 (a ∷ b ∷ c ∷ d ∷ _) = a + b * 256 + c * 65536 + d * 16777216
uint32 _ = 0

-- `io.ReadFull` into a buffer of n bytes: all of them, or an error.
unfoldable pub read_full : ℕ → List ℕ → Option (List ℕ × List ℕ)
read_full n stream = if leb n (length stream) then some (take n stream, drop n stream) else none

-- Where a call of the buffered writer may fail.
pub data Stage : Type 0 where
  at_size at_content at_newline : Stage

frame : List ℕ → List ℕ
unfolding put_uint32
frame content = put_uint32 ((length content % 2 ^ 32 + 1) % 2 ^ 32) ++ (content ++ (b'\n' ∷ []))

write_frame : Option Stage → List ℕ → Result (List ℕ)
unfolding frame
write_frame none content = ok (frame content)
write_frame (some stage) content = err write_failed

-- The bytes that are flushed to the socket; `fault` is the write that fails, if one does.
unfoldable pub send_message : Option Stage → List ℕ → Result (List ℕ)
unfolding write_frame
send_message fault content =
    if leb 16777215 (length content) then err content_too_big else write_frame fault content

-- What one call of `readClientMessage` puts on the channel, and the stream that is left if it
-- returns `true`.
pub record Reading : Type 0 where
  pub message : Result Fields
  pub rest : Option (List ℕ)

failure : Result Fields → Reading
failure e = record { message = e; rest = none }

-- The outcome of `json.Unmarshal`.
pub parsed : Option Fields → List ℕ → Reading
unfolding failure
parsed none rest = failure (err non_json)
parsed (some content) rest = record { message = ok content; rest = some rest }

abbrev pub first_max : ℕ
first_max = 1023

abbrev pub later_max : ℕ
later_max = 16777215

-- What a reader has put on the channel: all of its messages, and it has returned, or it waits in sending the next one.
pub data Reader : Type 0 where
  ends : List (Result Fields) → Reader
  waits : List (Result Fields) → Reader

pub sends_first : Result Fields → Reader → Reader
sends_first m (ends ms) = ends (m ∷ ms)
sends_first m (waits ms) = waits (m ∷ ms)

module _ (unmarshal : List ℕ → Option Fields) where
  read_content : Option (List ℕ × List ℕ) → Reading
  unfolding failure parsed
  read_content none = failure (err read_failed)
  read_content (some (content, rest)) = parsed (unmarshal content) rest

  read_size : ℕ → Option (List ℕ × List ℕ) → Reading
  unfolding failure read_content
  read_size max none = failure (err read_failed)
  read_size max (some (size, rest)) =
      if ltb max (uint32 size)
      then failure (err (message_too_big (uint32 size)))
      else read_content (read_full (uint32 size) rest)

  unfoldable pub read_client_message : ℕ → List ℕ → Reading
  unfolding read_size
  read_client_message max stream = read_size max (read_full 4 stream)

  -- Each call sends one message, and the channel has no buffer: `receives` says how often the goroutine of the client
  -- receives from it. The loop ends when a call fails.
  read_loop : ℕ → ℕ → List ℕ → Reader
  unfolding sends_first
  read_loop zero max stream = waits []
  read_loop (suc receives) max stream =
      let r = read_client_message max stream in
      elim r.rest [
        | none ↦ ends (r.message ∷ [])
        | some rest ↦ sends_first r.message (read_loop receives later_max rest)
      ]

  -- The first message has its own limit.
  unfoldable pub read_client_messages : ℕ → List ℕ → Reader
  unfolding read_loop
  read_client_messages receives stream = read_loop receives first_max stream
