-- ===== src/WebSocket/Sent.antt =====
-- What `ws_send_frame` writes is a frame of RFC 6455.
use Prim.Native.Nat.{bit_or, bit_and}
use ott_quic.Common.{
  ℕ, suc, ◌+◌, ◌/◌, ◌%◌, ◌^◌, ◌≤◌, ◌<◌, ◌≡◌, ◌⊎◌, refl, sym, ap, ◌∙◌, true, false, none, List, [],
  ◌∷◌, ◌++◌, ltb, ltb→lt, leb, lt→ltb, if◌then◌else◌, length, append_assoc, append-nil, Bool-cases,
  inl, inr, arith,
}
use ott_quic.Common.Bits.{low_four, low_byte, set_top_bit}
use ott_quic.WebSocket.Io.{Socket, write_all}
use ott_quic.WebSocket.Stream.{IsStream, write_all-Writes}
use ott_quic.WebSocket.Frame.{max_frame_payload, shifted, send_header, send_frame}
use ott_quic.WebSocket.RoundTrip.{wire, length_code, length_bytes}

first_byte : (opcode : ℕ) → opcode < 16 → bit_or 0x80 (bit_and opcode 0x0F) ≡ 128 + opcode
first_byte opcode h =
    rw (low_four opcode (omega arith)) (set_top_bit (opcode % 16) (omega arith) ∙ omega arith)

shifted_lem :
    (len : ℕ)
    → len ≤ 65536
    → shifted 8 len ≡ 0 ∷ 0 ∷ 0 ∷ 0 ∷ 0 ∷ len / 65536 ∷ len / 256 % 256 ∷ len % 256 ∷ []
unfolding shifted
shifted_lem len h =
    let byte : (n : ℕ) → bit_and n 0xFF ≡ n % 256 = low_byte in
    let e7 : bit_and (len / 2 ^ 56) 0xFF ≡ 0 = byte _ ∙ omega arith in
    let e6 : bit_and (len / 2 ^ 48) 0xFF ≡ 0 = byte _ ∙ omega arith in
    let e5 : bit_and (len / 2 ^ 40) 0xFF ≡ 0 = byte _ ∙ omega arith in
    let e4 : bit_and (len / 2 ^ 32) 0xFF ≡ 0 = byte _ ∙ omega arith in
    let e3 : bit_and (len / 2 ^ 24) 0xFF ≡ 0 = byte _ ∙ omega arith in
    let e2 : bit_and (len / 2 ^ 16) 0xFF ≡ len / 65536 = byte _ ∙ omega arith in
    let e1 : bit_and (len / 2 ^ 8) 0xFF ≡ len / 256 % 256 = byte _ in
    let e0 : bit_and (len / 1) 0xFF ≡ len % 256 = byte _ ∙ omega arith in cc

send_header_lem :
    (opcode len : ℕ)
    → opcode < 16
    → len ≤ max_frame_payload
    → send_header opcode len ≡ (128 + opcode) ∷ length_code len ∷ length_bytes len
unfolding send_header
send_header_lem opcode len lt h = elim (Bool-cases (ltb len 126)) [
  | inl s ↦
      let t : leb len 125 ≡ true = ground arith in
      rw t (
        rw s (
          rw (first_byte opcode lt)
            (ap (λ (k : ℕ). (128 + opcode) ∷ k ∷ []) (omega (arith, ltb→lt len 126 s)))))
  | inr s ↦
      let t : leb len 125 ≡ false = ground arith in
      elim (Bool-cases (ltb len 65536)) [
        | inl m ↦
            let u : leb len 65535 ≡ true = ground arith in
            rw (t, s)
              (rw (u, m)
                (rw (first_byte opcode lt, low_byte (len / 256), low_byte len)
                  (ap (λ (k : ℕ). (128 + opcode) ∷ 126 ∷ k ∷ len % 256 ∷ [])
                    (omega (arith, ltb→lt len 65536 m)))))
        | inr m ↦
            let u : leb len 65535 ≡ false = ground arith in
            rw (t, s) (rw (u, m) (rw (first_byte opcode lt, shifted_lem len h) refl))
      ]
]

module _ (socket : Socket) (stream : IsStream socket) where
  -- All was sent, or the call failed.
  pub sent_or_failed :
      (conn : socket.Conn) (bytes : List ℕ)
      → let r = write_all socket conn bytes in
        (r.0 ≡ false) ⊎ (stream.outgoing r.1 ≡ stream.outgoing conn ++ bytes)
  sent_or_failed conn bytes =
      let (n, out, all) = write_all-Writes socket stream conn bytes in
      elim all [
        | inl f ↦ inl f
        | inr a ↦ inr (out ∙ ap (λ (t : List ℕ). stream.outgoing conn ++ t) a)
      ]

  payload_sent :
      (conn : socket.Conn) (payload : List ℕ)
      → let r = if ltb 0 (length payload) then write_all socket conn payload else (true, conn) in
        (r.0 ≡ false) ⊎ (stream.outgoing r.1 ≡ stream.outgoing conn ++ payload)
  payload_sent conn [] = inr (sym (append-nil _))
  payload_sent conn (b ∷ payload) =
      rw (lt→ltb 0 (suc (length payload)) (omega arith)) (sent_or_failed conn (b ∷ payload))

  -- If `ws_send_frame` succeeds, what was sent is the final, unmasked frame of RFC 6455 with this
  -- opcode and payload, in whatever pieces the socket takes it. The hypotheses: the socket is a
  -- stream, the opcode has four bits and the payload at most 65536 bytes.
  pub send_frame-wire :
      (conn : socket.Conn) (opcode : ℕ) (payload : List ℕ)
      → opcode < 16
      → length payload ≤ max_frame_payload
      → let r = send_frame socket conn opcode payload in
        (r.0 ≡ false)
        ⊎ (stream.outgoing r.1 ≡ stream.outgoing conn ++ wire true opcode none payload)
  unfolding send_frame
  send_frame-wire conn opcode payload lt h =
      let header = send_header opcode (length payload) in
      let conn1 = (write_all socket conn header).1 in
      elim (Bool-cases (write_all socket conn header).0) [
        | inr f ↦ rw (f, send_frame) (inl refl)
        | inl t ↦ elim (sent_or_failed conn header) [
          | inl f ↦ absurd (cc)
          | inr out ↦ elim (payload_sent conn1 payload) [
            | inl f ↦ rw (t, send_frame) (inl f)
            | inr o ↦
                rw (t, send_frame)
                  (inr (
                    o
                    ∙ ap (λ (x : List ℕ). x ++ payload) out
                    ∙ append_assoc (stream.outgoing conn) header payload
                    ∙ ap (λ (x : List ℕ). stream.outgoing conn ++ (x ++ payload))
                        (send_header_lem opcode (length payload) lt h)
                    ∙ ap
                        (λ (k : ℕ).
                          stream.outgoing conn
                          ++ ((128 + opcode) ∷ k ∷ (length_bytes (length payload) ++ payload)))
                        {x = length_code (length payload)} (omega arith)))
          ]
        ]
      ]
