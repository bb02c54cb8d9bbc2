-- ===== src/Samples/Wire.antt =====
-- A socket that moves one byte with each call.
use ott_quic.Common.{
  ℕ, zero, suc, ◌≤◌, ◌<◌, ◌≡◌, refl, Option, none, some, List, [], ◌∷◌, ◌++◌, length, take, arith,
}
use mathlib.Core.Path.{subst}
use ott_quic.WebSocket.Io.{Socket}
use ott_quic.WebSocket.Stream.{IsStream}

-- A socket that returns and takes one byte at a time: what is to come, and what was sent.
abbrev pub receive : List ℕ × List ℕ → ℕ → Option (List ℕ × (List ℕ × List ℕ))
receive ([], o) len = none
receive (b ∷ i, o) zero = none
receive (b ∷ i, o) (suc n) = some (b ∷ [], (i, o))

abbrev pub transmit : List ℕ × List ℕ → List ℕ → Option (ℕ × (List ℕ × List ℕ))
transmit (i, o) [] = none
transmit (i, o) (b ∷ bytes) = some (1, (i, o ++ (b ∷ [])))

abbrev pub byte_wise : Socket
byte_wise = record { Conn = List ℕ × List ℕ; recv = receive; send = transmit }

pub receive_order :
    (conn conn' : List ℕ × List ℕ) (len : ℕ) (bytes : List ℕ)
    → receive conn len ≡ some (bytes, conn')
    → (conn.0 ≡ bytes ++ conn'.0) × (length bytes ≤ len)
receive_order ([], o) conn' len bytes e = cc
receive_order (b ∷ i, o) conn' zero bytes e = cc
receive_order (b ∷ i, o) conn' (suc n) bytes e =
    subst (λ (r : List ℕ × (List ℕ × List ℕ)). (b ∷ i ≡ r.0 ++ r.1.0) × (length r.0 ≤ suc n))
      {x = (b ∷ [], (i, o))} {y = (bytes, conn')} (cc) (refl, omega arith)

pub receive_ready :
    (conn : List ℕ × List ℕ) (len : ℕ)
    → 0 < len
    → 0 < length conn.0
    → (r : List ℕ × (List ℕ × List ℕ)) × (receive conn len ≡ some r) × (0 < length r.0)
receive_ready ([], o) len h k = absurd (omega arith)
receive_ready (b ∷ i, o) zero h k = absurd (omega arith)
receive_ready (b ∷ i, o) (suc n) h k = ((b ∷ [], (i, o)), refl, omega arith)

pub transmit_order :
    (conn conn' : List ℕ × List ℕ) (bytes : List ℕ) (n : ℕ)
    → transmit conn bytes ≡ some (n, conn')
    → (conn'.1 ≡ conn.1 ++ take n bytes) × (n ≤ length bytes)
transmit_order (i, o) conn' [] n e = cc
transmit_order (i, o) conn' (b ∷ bytes) n e =
    subst
      (λ (r : ℕ × (List ℕ × List ℕ)).
        (r.1.1 ≡ o ++ take r.0 (b ∷ bytes)) × (r.0 ≤ suc (length bytes)))
      {x = (1, (i, o ++ (b ∷ [])))} {y = (n, conn')} (cc) (refl, omega arith)

abbrev pub byte_wise_stream : IsStream byte_wise
byte_wise_stream = record {
  incoming = λ (conn : List ℕ × List ℕ). conn.0;
  outgoing = λ (conn : List ℕ × List ℕ). conn.1;
  recv_in_order = receive_order;
  recv_ready = receive_ready;
  send_in_order = transmit_order;
}
