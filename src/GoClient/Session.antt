-- ===== src/GoClient/Session.antt =====
-- The client library and the server on the two ends of one connection.
use mathlib.Core.List.{append_assoc, append-nil}
use netorcai.Prelude.{
  ℕ, ◌+◌, ◌<◌, String, codes, ◌≡◌, refl, sym, ◌∙◌, List, [], ◌∷◌, ◌++◌, Option, none, some, true,
  length, arith,
}
use netorcai.Result.{ok, err, read_failed}
use netorcai.Json.{Fields}
use netorcai.ReadUtil.{read_string}
use netorcai.Network.{put_uint32, Stage, send_message, first_max, read_client_messages}
use netorcai.Network.Frames.{
  line, framed, read_full-put_uint32, read_full-line, uint32-put_uint32, send_message-ok,
}
use netorcai.Network.Delivery.{handed, read_client_messages-sent}
use netorcai.Messages.{read_login_message}
use netorcai.Messages.Login.{IsLogin, IsNickname, IsRole, Speaks, read_login_message-ok_iff}
use netorcai.GoClient.{send_bytes, send_login, login_fields, read_header, decoded, read_message}

-- The client writes the same bytes as the server.
pub send_bytes-eq-send_message :
    (fault : Option Stage) (content : List ℕ)
    → send_bytes fault content true ≡ send_message fault content
unfolding send_bytes send_message
send_bytes-eq-send_message none content = refl
send_bytes-eq-send_message (some x) content = refl

read_message-framed :
    (unmarshal : List ℕ → Option Fields) (content rest : List ℕ)
    → length content < 16777215
    → read_message unmarshal (framed content ++ rest)
      ≡ decoded unmarshal (unmarshal (line content)) rest
unfolding read_message framed
read_message-framed unmarshal content rest h = rw (
  append_assoc (put_uint32 (length content + 1)) (line content) rest,
  read_full-put_uint32 (length content + 1) (line content ++ rest),
  read_header,
  uint32-put_uint32 (length content + 1) (omega arith),
  read_full-line content rest,
)

login_fields-IsLogin :
    (role nickname version : String)
    → IsNickname (codes nickname)
    → IsRole role
    → Speaks version
    → IsLogin
        (login_fields role nickname version)
        (record { nickname = nickname; role = role; metaprotocol_version = version })
unfolding login_fields read_string
login_fields-IsLogin role nickname version n r v = record {
  typed = refl;
  nickname_read = refl;
  role_read = refl;
  version_read = refl;
  named = n;
  cast = r;
  speaks = v;
}

-- `json.Unmarshal` reads back what `json.Marshal` wrote of the object, with a newline behind it.
abbrev pub RoundTrips : (Fields → List ℕ) → (List ℕ → Option Fields) → Fields → Type 0
RoundTrips marshal unmarshal o = unmarshal (line (marshal o)) ≡ some o

module _ (marshal : Fields → List ℕ) (unmarshal : List ℕ → Option Fields) where
  -- If JSON round trips at the message: what the server sends without an error is what the
  -- client reads, and the client goes on behind it.
  pub read_message-send_message :
      (fault : Option Stage) (message : Fields) (rest bytes : List ℕ)
      → RoundTrips marshal unmarshal message
      → send_message fault (marshal message) ≡ ok bytes
      → read_message unmarshal (bytes ++ rest) ≡ ok (message, rest)
  unfolding decoded
  read_message-send_message fault message rest bytes back h =
      let (short, e) = send_message-ok fault (marshal message) bytes h in
      rw (e, read_message-framed unmarshal (marshal message) rest short, back)

  -- If JSON round trips at it: a LOGIN that the client sends with a valid nickname, role and version, in less than 1023 bytes,
  -- arrives at the server as its first message, and the server accepts it with those three texts; the reader waits
  -- for as long as the messages are not received.
  pub read_login_message-send_login :
      (receives : ℕ) (fault : Option Stage) (role nickname version : String) (bytes : List ℕ)
      → RoundTrips marshal unmarshal (login_fields role nickname version)
      → IsNickname (codes nickname)
      → IsRole role
      → Speaks version
      → length (marshal (login_fields role nickname version)) < first_max
      → send_login marshal fault role nickname version ≡ ok bytes
      → (message : Fields) × (read_client_messages unmarshal receives bytes
          ≡ handed receives (ok message ∷ err read_failed ∷ []))
        × (read_login_message message
            ≡ ok (record { nickname = nickname; role = role; metaprotocol_version = version }))
  unfolding send_login
  read_login_message-send_login receives fault role nickname version bytes back n r v short h =
      let o : Fields = login_fields role nickname version in
      let e : bytes ≡ framed (marshal o) =
        (send_message-ok fault (marshal o) bytes
          (sym (send_bytes-eq-send_message fault (marshal o)) ∙ h)).1 in
      (
        o,
        rw (e, ← append-nil (framed (marshal o)))
            (read_client_messages-sent unmarshal receives (marshal o) o [] (short, back) tt),
        (read_login_message-ok_iff o _).1 (login_fields-IsLogin role nickname version n r v),
      )
