-- ===== src/WebSocket/Bounds.antt =====
-- The buffer of base 64 is never overrun.
use ott_quic.Common.{
  ℕ, ◌+◌, ◌*◌, ◌/◌, ◌≡◌, refl, none, some, List, [], ◌∷◌, ltb, if◌then◌else◌, length, arith,
}
use ott_quic.WebSocket.Accept.{encode_loop, base64_encode}

-- The number of characters that `base64_encode` writes.
pub length-encode_loop : (bytes : List ℕ) → length (encode_loop bytes) ≡ (length bytes + 2) / 3 * 4
unfolding encode_loop
length-encode_loop [] = refl
length-encode_loop (a ∷ []) = refl
length-encode_loop (a ∷ b ∷ []) = refl
length-encode_loop (a ∷ b ∷ c ∷ bytes) = omega (arith, length-encode_loop bytes)

-- `base64_encode` succeeds exactly if the text and its closing NUL fit into the buffer.
pub base64_encode_lem :
    (bytes : List ℕ) (out_size : ℕ)
    → base64_encode bytes out_size
      ≡ (if ltb (length (encode_loop bytes)) out_size then some (encode_loop bytes) else none)
unfolding base64_encode
base64_encode_lem bytes out_size = ground (arith, length-encode_loop bytes)
