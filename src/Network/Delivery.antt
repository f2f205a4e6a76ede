-- ===== src/Network/Delivery.antt =====
-- `readClientMessages`: what arrives on the channel, for a stream of frames and for any stream.
use netorcai.Prelude.{
  ℕ, zero, suc, ◌^◌, ◌≤◌, ◌<◌, ◌≡◌, refl, ap, List, [], ◌∷◌, ◌++◌, Option, none, some, length,
  length-drop, take, drop, All, arith, ltb, lt→ltb, Option-cases, inl, inr, true, ◌⊎◌,
}
use netorcai.Result.{Result, ok, err, read_failed, message_too_big}
use netorcai.Json.{Fields}
use netorcai.Network.{
  uint32, read_full, first_max, later_max, parsed, read_size, read_client_message, read_loop,
  read_client_messages, Reader, ends, waits, sends_first,
}
use netorcai.Network.Frames.{read_full-append, line, framed, read_client_message-framed}

-- Messages in order, and one error at the end.
abbrev pub Ends : List (Result Fields) → Type 0
Ends [] = ⊥
Ends (ok f ∷ ms) = Ends ms
Ends (err e ∷ []) = Unit {0}
Ends (err e ∷ m ∷ ms) = ⊥

-- A content with what it decodes to.
abbrev pub Content : Type 0
Content = List ℕ × Fields

-- The frames of the contents, one after the other.
abbrev pub sent : List Content → List ℕ
sent [] = []
sent ((c, f) ∷ ps) = framed c ++ sent ps

abbrev pub received : List Content → List (Result Fields)
received [] = err read_failed ∷ []
received ((c, f) ∷ ps) = ok f ∷ received ps

-- A reader that has the messages `ms` to send, when `receives` of them are received.
abbrev pub handed : ℕ → List (Result Fields) → Reader
handed receives [] = ends []
handed zero (m ∷ ms) = waits []
handed (suc receives) (m ∷ ms) = sends_first m (handed receives ms)

module _ (unmarshal : List ℕ → Option Fields) where
  abbrev pub Decodes : ℕ → Content → Type 0
  Decodes max p = (length p.0 < max) × (unmarshal (line p.0) ≡ some p.1)

  read_framed :
      (max : ℕ) (c : List ℕ) (f : Fields) (rest : List ℕ)
      → max < 2 ^ 32
      → Decodes max (c, f)
      → read_client_message unmarshal max (framed c ++ rest)
        ≡ record { message = ok f; rest = some rest }
  unfolding parsed
  read_framed max c f rest small (short, e) =
      rw (read_client_message-framed unmarshal max c rest (omega arith) small, e)

  -- One round of the loop.
  read_loop_next :
      (receives max : ℕ) (stream rest : List ℕ) (m : Result Fields) (ms : List (Result Fields))
      → read_client_message unmarshal max stream ≡ record { message = m; rest = some rest }
      → ((n : ℕ) → read_loop unmarshal n later_max rest ≡ handed n ms)
      → read_loop unmarshal receives max stream ≡ handed receives (m ∷ ms)
  unfolding read_loop
  read_loop_next zero max stream rest m ms e run = refl
  read_loop_next (suc receives) max stream rest m ms e run =
      rw (ap (λ r. r.rest) e, read_loop, run receives)
        (ap (λ r. sends_first r.message (handed receives ms)) e)

  read_loop_last :
      (receives max : ℕ) (stream : List ℕ) (m : Result Fields)
      → read_client_message unmarshal max stream ≡ record { message = m; rest = none }
      → read_loop unmarshal receives max stream ≡ handed receives (m ∷ [])
  unfolding read_loop sends_first
  read_loop_last zero max stream m e = refl
  read_loop_last (suc receives) max stream m e =
      rw (ap (λ r. r.rest) e, read_loop) (ap (λ r. ends (r.message ∷ [])) e)

  read_loop-sent :
      (receives : ℕ) (ps : List Content)
      → All (Decodes later_max) ps
      → read_loop unmarshal receives later_max (sent ps) ≡ handed receives (received ps)
  read_loop-sent receives [] d =
      read_loop_last receives later_max [] _ (unfold read_client_message read_full in refl)
  read_loop-sent receives ((c, f) ∷ ps) d =
      read_loop_next receives later_max _ (sent ps) (ok f) (received ps)
        (read_framed later_max c f (sent ps) (omega arith) d.0) (λ n. read_loop-sent n ps d.1)

  -- The frames of decodable contents, the first one below 1 KiB and the others below 16 MiB, arrive complete and in
  -- order, as many as are received, and then the end of the connection is reported. The reader ends if all that is
  -- received, and waits otherwise.
  pub read_client_messages-sent :
      (receives : ℕ) (c : List ℕ) (f : Fields) (ps : List Content)
      → Decodes first_max (c, f)
      → All (Decodes later_max) ps
      → read_client_messages unmarshal receives (sent ((c, f) ∷ ps))
        ≡ handed receives (received ((c, f) ∷ ps))
  unfolding read_client_messages
  read_client_messages-sent receives c f ps d ds =
      read_loop_next receives first_max _ (sent ps) (ok f) (received ps)
        (read_framed first_max c f (sent ps) (omega arith) d) (λ n. read_loop-sent n ps ds)

  -- A call that goes on takes at least the four bytes of the size.
  read_client_message-shorter :
      (max : ℕ) (stream : List ℕ) {rest : List ℕ}
      → (read_client_message unmarshal max stream).rest ≡ some rest
      → length rest < length stream
  unfolding read_client_message read_full parsed
  read_client_message-shorter max stream h =
      ground (arith, length-drop 4 stream, length-drop (uint32 (take 4 stream)) (drop 4 stream))

  read_client_message-Ends :
      (max : ℕ) (stream : List ℕ) (ms : List (Result Fields))
      → ((read_client_message unmarshal max stream).rest ≡ none) × (ms ≡ [])
        ⊎ ((rest : List ℕ) × ((read_client_message unmarshal max stream).rest ≡ some rest)
            × (length rest < length stream)
            × Ends ms)
      → Ends ((read_client_message unmarshal max stream).message ∷ ms)
  unfolding read_client_message parsed
  read_client_message-Ends max stream ms h = ground arith

  read_loop_total :
      (fuel max : ℕ) (stream : List ℕ)
      → length stream < fuel
      → (ms : List (Result Fields)) × ((receives : ℕ)
          → read_loop unmarshal receives max stream ≡ handed receives ms)
        × Ends ms
        × (length ms ≤ fuel)
  read_loop_total zero max stream h = absurd (omega arith)
  read_loop_total (suc fuel) max stream h =
      elim (Option-cases (read_client_message unmarshal max stream).rest) [
        | inl e ↦ (
          _ ∷ [],
          (λ n.
              read_loop_last n max stream _
                (ap (λ rest. record { message = message; rest = rest }) e)),
          read_client_message-Ends max stream [] (inl (e, refl)),
          omega arith,
        )
        | inr (rest, e) ↦
            let shorter = read_client_message-shorter max stream e in
            let (ms, run, ended, short) = read_loop_total fuel later_max rest (omega arith) in
            (
              _ ∷ ms,
              (λ n.
                  read_loop_next n max stream rest _ ms
                    (ap (λ rest. record { message = message; rest = rest }) e) run),
              read_client_message-Ends max stream ms (inr (rest, e, shorter, ended)),
              omega (arith, short),
            )
      ]
    where
      message : Result Fields
      message = (read_client_message unmarshal max stream).message

  -- Whatever the remote end sends, the reader has some messages and then exactly one error for the channel, at most
  -- one message more than there are bytes. It ends if all of them are received, and otherwise it waits for ever behind those that are.
  pub read_client_messages_total :
      (stream : List ℕ)
      → (ms : List (Result Fields)) × ((receives : ℕ)
          → read_client_messages unmarshal receives stream ≡ handed receives ms)
        × Ends ms
        × (length ms ≤ suc (length stream))
  unfolding read_client_messages
  read_client_messages_total stream =
      read_loop_total (suc (length stream)) first_max stream (omega arith)

  read_client_message_too_big :
      (a b c d max : ℕ) (rest : List ℕ)
      → max < uint32 (a ∷ b ∷ c ∷ d ∷ [])
      → read_client_message unmarshal max (a ∷ b ∷ c ∷ d ∷ rest)
        ≡ record { message = err (message_too_big (uint32 (a ∷ b ∷ c ∷ d ∷ []))); rest = none }
  unfolding read_client_message
  read_client_message_too_big a b c d max rest h = rw (size, read_size, over) refl
    where
      size : read_full 4 (a ∷ b ∷ c ∷ d ∷ rest) ≡ some (a ∷ b ∷ c ∷ d ∷ [], rest)
      size = read_full-append (a ∷ b ∷ c ∷ d ∷ []) rest

      over : ltb max (uint32 (a ∷ b ∷ c ∷ d ∷ [])) ≡ true
      over = lt→ltb _ _ h

  -- A first message that announces 1 KiB or more is refused on its size alone.
  pub read_client_messages_first_too_big :
      (receives a b c d : ℕ) (rest : List ℕ)
      → first_max < uint32 (a ∷ b ∷ c ∷ d ∷ [])
      → read_client_messages unmarshal receives (a ∷ b ∷ c ∷ d ∷ rest)
        ≡ handed receives (err (message_too_big (uint32 (a ∷ b ∷ c ∷ d ∷ []))) ∷ [])
  unfolding read_client_messages
  read_client_messages_first_too_big receives a b c d rest h =
      read_loop_last receives first_max _ _ (read_client_message_too_big a b c d first_max rest h)
