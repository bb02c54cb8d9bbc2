-- ===== src/WebSocket/Accept.antt =====
-- Base 64 and the key of the opening handshake. A text is the list of its bytes.
use Prim.Native.Nat.{bit_or, bit_and}
use ott_quic.Common.{
  ℕ, ◌+◌, ◌-◌, ◌*◌, ◌/◌, ◌^◌, Option, none, some, List, [], ◌∷◌, ◌++◌, ltb, leb, if◌then◌else◌,
  length,
}
use ott_quic.WebSocket.Sha1.{sha1_compute}

-- `table[i]` of the alphabet A-Z, a-z, 0-9, + and /.
unfoldable pub table : ℕ → ℕ
table i =
    if ltb i 26
    then 65 + i
    else if ltb i 52
    then 97 + (i - 26)
    else if ltb i 62
    then 48 + (i - 52)
    else if ltb i 63
    then 43
    else 47

abbrev pub triple : ℕ → ℕ → ℕ → ℕ
triple a b c = bit_or (bit_or (a * 2 ^ 16) (b * 2 ^ 8)) c

-- `table[(triple >> shift) & 0x3F]`.
abbrev pub sextet : ℕ → ℕ → ℕ
sextet t shift = table (bit_and (t / 2 ^ shift) 0x3F)

-- The loop over the bytes, three at a time; 61 is `=`.
unfoldable pub encode_loop : List ℕ → List ℕ
unfolding table
encode_loop [] = []
encode_loop (a ∷ []) = sextet (triple a 0 0) 18 ∷ sextet (triple a 0 0) 12 ∷ 61 ∷ 61 ∷ []
encode_loop (a ∷ b ∷ []) =
    sextet (triple a b 0) 18 ∷ sextet (triple a b 0) 12 ∷ sextet (triple a b 0) 6 ∷ 61 ∷ []
encode_loop (a ∷ b ∷ c ∷ bytes) =
    sextet (triple a b c) 18
    ∷ sextet (triple a b c) 12
    ∷ sextet (triple a b c) 6
    ∷ sextet (triple a b c) 0
    ∷ encode_loop bytes

-- `none` is the code -1; the closing NUL is not part of the text.
unfoldable pub base64_encode : List ℕ → ℕ → Option (List ℕ)
unfolding encode_loop
base64_encode bytes out_size =
    if ltb out_size ((length bytes + 2) / 3 * 4 + 1) then none else some (encode_loop bytes)

-- `WS_GUID`, "258EAFA5-E914-47DA-95CA-C5AB0DC85B11".
abbrev pub guid : List ℕ
guid =
    50 ∷ 53 ∷ 56 ∷ 69 ∷ 65 ∷ 70 ∷ 65 ∷ 53 ∷ 45 ∷ 69 ∷ 57 ∷ 49 ∷ 52 ∷ 45 ∷ 52 ∷ 55 ∷ 68 ∷ 65 ∷ 45
    ∷ 57 ∷ 53 ∷ 67 ∷ 65 ∷ 45 ∷ 67 ∷ 53 ∷ 65 ∷ 66 ∷ 48 ∷ 68 ∷ 67 ∷ 56 ∷ 53 ∷ 66 ∷ 49 ∷ 49 ∷ []

unfoldable pub calculate_accept_key : List ℕ → ℕ → Option (List ℕ)
calculate_accept_key client_key out_size =
    if leb 128 (length client_key + length guid)
    then none
    else base64_encode (sha1_compute (client_key ++ guid)) out_size
