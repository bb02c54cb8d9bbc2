-- ===== src/Client/Pong.antt =====
-- A ping is answered, with what RFC 6455 asks for.
use ott_quic.Common.{
  ℕ, ◌≤◌, ◌<◌, ◌≡◌, ◌⊎◌, refl, ap, ◌∙◌, Bool, true, false, Option, none, some, List, ◌++◌, length,
  inl, inr, arith,
}
use ott_quic.WebSocket.Io.{Socket}
use ott_quic.WebSocket.Stream.{IsStream}
use ott_quic.WebSocket.Frame.{max_frame_payload, read_frame, send_frame}
use ott_quic.WebSocket.RoundTrip.{wire, frame, read_frame-wire}
use ott_quic.WebSocket.Sent.{send_frame-wire}
use ott_quic.Client.Library.{Library, World, Answers, send_to_client}
use ott_quic.Client.Serve.{serve_round, serve_frame}

-- The frames that are answered with their own payload: the opcode, whether the loop goes on, and the
-- opcode of the answer.
pub data Echo : ℕ → Bool → ℕ → Type 0 where
  of_ping : Echo 9 true 10
  of_close : Echo 8 false 8
  of_binary : Echo 2 true 2
  of_continuation : Echo 0 true 1

module _ (socket : Socket) (lib : Library) (stream : IsStream socket) where
  serve_frame-Echo :
      (a : Answers) (w : World socket lib) (user opcode opcode' : ℕ) (fin more : Bool)
      (payload : List ℕ)
      → Echo opcode more opcode'
      → serve_frame socket lib a w user (frame fin opcode payload)
        ≡ (more, record w { conn = (send_frame socket w.conn opcode' payload).1 })
  unfolding serve_frame send_to_client
  serve_frame-Echo a w user _ _ fin _ payload of_ping = refl
  serve_frame-Echo a w user _ _ fin _ payload of_close = refl
  serve_frame-Echo a w user _ _ fin _ payload of_binary = refl
  serve_frame-Echo a w user _ _ fin _ payload of_continuation = refl

  Echo-lt :
      (opcode opcode' : ℕ) (more : Bool) → Echo opcode more opcode' → (opcode < 16) × (opcode' < 16)
  Echo-lt _ _ _ of_ping = (omega arith, omega arith)
  Echo-lt _ _ _ of_close = (omega arith, omega arith)
  Echo-lt _ _ _ of_binary = (omega arith, omega arith)
  Echo-lt _ _ _ of_continuation = (omega arith, omega arith)

  -- A round that read a frame whole, and answered it with another.
  abbrev pub Answered :
      World socket lib → Bool → ℕ → List ℕ → List ℕ → Bool × World socket lib → Type 0
  Answered w more opcode' payload rest r =
      (conn' : socket.Conn) × (stream.incoming conn' ≡ rest)
      × (r ≡ (more, record w { conn = (send_frame socket conn' opcode' payload).1 }))
      × (((send_frame socket conn' opcode' payload).0 ≡ false)
          ⊎ (stream.outgoing (r.1.conn) ≡ stream.outgoing conn' ++ wire true opcode' none payload))

  -- A ping that arrives in whatever pieces, masked or not, is answered with a pong of the same
  -- payload, a close with a close, and a binary frame and a continuation with their payload; only
  -- after a close the loop ends. What follows the frame is left to the next round; the socket is a
  -- stream, `malloc` succeeds and the payload has at most 65536 bytes.
  pub serve_round-Answered :
      (a : Answers) (w : World socket lib) (user opcode opcode' : ℕ) (fin more : Bool)
      (key : Option (ℕ × ℕ × ℕ × ℕ)) (payload rest : List ℕ)
      → Echo opcode more opcode'
      → a.allocated ≡ true
      → length payload ≤ max_frame_payload
      → stream.incoming w.conn ≡ wire fin opcode key payload ++ rest
      → Answered w more opcode' payload rest (serve_round socket lib a w user)
  unfolding serve_round
  serve_round-Answered a w user opcode opcode' fin more key payload rest echo alloc short arrives =
      let (lt, lt') = Echo-lt opcode opcode' more echo in
      let (conn', found, left) =
        read_frame-wire socket stream w.conn fin opcode key payload rest lt short arrives in
      let w' : World socket lib = record w { conn = conn' } in
      let served = serve_frame-Echo a w' user opcode opcode' fin more payload echo in
      let read : read_frame socket a.allocated w.conn ≡ some (frame fin opcode payload, conn') =
        ap (λ (b : Bool). read_frame socket b w.conn) alloc ∙ found in
      let round : serve_round socket lib a w user
          ≡ (more, record w { conn = (send_frame socket conn' opcode' payload).1 }) =
        rw (read, serve_round) served in
      (
        conn',
        left,
        round,
        elim (send_frame-wire socket stream conn' opcode' payload lt' short) [
          | inl f ↦ inl f
          | inr o ↦ inr (ap (λ (r : Bool × World socket lib). stream.outgoing (r.1.conn)) round ∙ o)
        ],
      )
