-- ===== src/GoClient/Connection.antt =====
-- client/go/client.go: `Connect` and `Disconnect`, and what they mean for the functions that send and read.
-- `net.Dial`, `Close` and `strconv.Itoa` are parameters.
use netorcai.Prelude.{
  ℕ, ℤ, ◌≡◌, refl, List, ◌∷◌, ◌++◌, Bool, true, false, ◌&&◌, Option, none, some, leb, if◌then◌else◌,
  length, ◌⊎◌, inl, inr, Bool-cases,
}
use netorcai.Result.{Result, err, content_too_big}
use netorcai.Json.{Fields}
use netorcai.Outcome.{Outcome, returns, panics}
use netorcai.Network.{Stage}
use netorcai.GoClient.{send_bytes, read_message}

-- `Client`: the reader and the writer are set and cleared together.
pub record Link (Conn : Type 0) : Type 0 where
  pub conn : Option Conn
  pub buffered : Bool

module _ {Conn : Type 0} where
  -- `SendBytes`: the size is tested before the writer is used; a nil writer panics.
  unfoldable pub send_bytes_on :
      Link Conn → Option Stage → List ℕ → Bool → Outcome (Result (List ℕ))
  send_bytes_on l fault content check_size =
      if check_size && leb 16777215 (length content)
      then returns (err content_too_big)
      else if l.buffered
      then returns (send_bytes fault content check_size)
      else panics

  -- `ReadMessage`; a nil reader panics.
  unfoldable pub read_message_on :
      (List ℕ → Option Fields) → Link Conn → List ℕ → Outcome (Result (Fields × List ℕ))
  read_message_on unmarshal l stream =
      if l.buffered then returns (read_message unmarshal stream) else panics

-- `Fault` are the errors of the two calls.
module _ {Conn Fault : Type 0} (itoa : ℤ → List ℕ) (dial : List ℕ → Conn ⊎ Fault)
    (close : Conn → Option Fault) where
  dialed : Conn ⊎ Fault → Link Conn → Link Conn × Option Fault
  dialed (inr e) l = (record l { conn = none }, some e)
  dialed (inl conn) l = (record { conn = some conn; buffered = true }, none)

  unfoldable pub connect : List ℕ → ℤ → Link Conn → Link Conn × Option Fault
  unfolding dialed
  connect hostname port l = dialed (dial (hostname ++ (b':' ∷ itoa port))) l

  closed : Option Conn → Link Conn → Outcome (Link Conn × Option Fault)
  closed none l = panics
  closed (some conn) l = returns (record l { buffered = false }, close conn)

  -- A client that never connected has a nil connection, whose `Close` panics.
  unfoldable pub disconnect : Link Conn → Outcome (Link Conn × Option Fault)
  unfolding closed
  disconnect l = closed l.conn l

  -- How a client whose address was reached gets on: it sends and reads until it disconnects, which does not panic;
  -- from then on it panics when it reads, or sends what is not too big.
  pub record IsSession (l : Link Conn) : Type 0 where
    pub sends :
        (fault : Option Stage) (content : List ℕ) (check_size : Bool)
        → send_bytes_on l fault content check_size ≡ returns (send_bytes fault content check_size)
    pub reads :
        (unmarshal : List ℕ → Option Fields) (stream : List ℕ)
        → read_message_on unmarshal l stream ≡ returns (read_message unmarshal stream)
    pub ended : Link Conn
    pub ending : Option Fault
    pub ends : disconnect l ≡ returns (ended, ending)
    pub no_send :
        (fault : Option Stage) (content : List ℕ) → send_bytes_on ended fault content false ≡ panics
    pub no_read :
        (unmarshal : List ℕ → Option Fields) (stream : List ℕ)
        → read_message_on unmarshal ended stream ≡ panics

  -- A client that reached its address has such a session.
  pub connect-IsSession :
      (hostname : List ℕ) (port : ℤ) (l : Link Conn) (conn : Conn)
      → dial (hostname ++ (b':' ∷ itoa port)) ≡ inl conn
      → IsSession (connect hostname port l).0
  unfolding connect disconnect send_bytes_on read_message_on send_bytes
  connect-IsSession hostname port l conn reached = rw reached (record {
    sends = λ fault content check_size.
        elim (Bool-cases (check_size && leb 16777215 (length content))) [
          | inl big ↦ rw big refl
          | inr fits ↦ rw fits refl
        ];
    reads = λ unmarshal stream. refl;
    ended = record { conn = some conn; buffered = false };
    ending = close conn;
    ends = refl;
    no_send = λ fault content. refl;
    no_read = λ unmarshal stream. refl;
  })
