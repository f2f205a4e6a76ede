-- ===== src/GoClient.antt =====
-- client/go/client.go: the Go client library. `json.Marshal` and `json.Unmarshal` are parameters.
pub mod Connection
pub mod Session
use netorcai.Prelude.{
  ℕ, ◌+◌, ◌%◌, ◌^◌, String, List, [], ◌∷◌, ◌++◌, Bool, true, false, ◌&&◌, Option, none, some, leb,
  if◌then◌else◌, length,
}
use netorcai.Result.{Result, ok, err, read_failed, write_failed, non_json, content_too_big}
use netorcai.Json.{text, Fields, end, field}
use netorcai.Network.{put_uint32, uint32, read_full, Stage}

size_and_content : List ℕ → List ℕ
size_and_content content =
    put_uint32 ((length content % 2 ^ 32 + 1) % 2 ^ 32) ++ (content ++ (b'\n' ∷ []))

write_all : Option Stage → List ℕ → Result (List ℕ)
unfolding size_and_content
write_all none content = ok (size_and_content content)
write_all (some stage) content = err write_failed

-- The bytes that are flushed; with `check_size` a content that is too big is refused.
unfoldable pub send_bytes : Option Stage → List ℕ → Bool → Result (List ℕ)
unfolding write_all
send_bytes fault content check_size =
    if check_size && leb 16777215 (length content)
    then err content_too_big
    else write_all fault content

unfoldable pub send_string : Option Stage → List ℕ → Result (List ℕ)
unfolding send_bytes
send_string fault content = send_bytes fault content true

-- The object of a LOGIN message.
unfoldable pub login_fields : String → String → String → Fields
login_fields role nickname metaprotocol_version = field "message_type" (text "LOGIN") (
    field "role" (text role) (
      field "nickname" (text nickname)
        (field "metaprotocol_version" (text metaprotocol_version) end)))

module _ (marshal : Fields → List ℕ) where
  unfoldable pub send_json : Option Stage → Fields → Result (List ℕ)
  unfolding send_bytes
  send_json fault message = send_bytes fault (marshal message) true

  unfoldable pub send_login : Option Stage → String → String → String → Result (List ℕ)
  unfolding send_json login_fields
  send_login fault role nickname metaprotocol_version =
      send_json fault (login_fields role nickname metaprotocol_version)

module _ (unmarshal : List ℕ → Option Fields) where
  decoded : Option Fields → List ℕ → Result (Fields × List ℕ)
  decoded none rest = err non_json
  decoded (some message) rest = ok (message, rest)

  read_body : Option (List ℕ × List ℕ) → Result (Fields × List ℕ)
  unfolding decoded
  read_body none = err read_failed
  read_body (some (content, rest)) = decoded (unmarshal content) rest

  read_header : Option (List ℕ × List ℕ) → Result (Fields × List ℕ)
  unfolding read_body
  read_header none = err read_failed
  read_header (some (size, rest)) = read_body (read_full (uint32 size) rest)

  -- A message and the stream behind it. The client sets no limit on the size.
  unfoldable pub read_message : List ℕ → Result (Fields × List ℕ)
  unfolding read_header
  read_message stream = read_header (read_full 4 stream)
