-- ===== src/WebSocket/Sha1.antt =====
-- SHA-1, as the opening handshake uses it.
use Prim.Native.Nat.{bit_or, bit_and, bit_xor}
use ott_quic.Common.{
  ℕ, zero, suc, ◌+◌, ◌-◌, ◌*◌, ◌/◌, ◌^◌, List, [], ◌∷◌, ◌++◌, none, some, ltb, ◌==◌, if◌then◌else◌,
  length, get_elem?, replicate, u32, u64,
}

-- `sha1_ctx`: the five words of the state, and the first `datalen` bytes of the buffer.
abbrev pub Words : Type 0
Words = ℕ × ℕ × ℕ × ℕ × ℕ

pub record Context : Type 0 where
  pub state : Words
  pub bitlen : ℕ
  pub buffer : List ℕ

unfoldable pub sha1_init : Context
sha1_init = record {
  state = (0x67452301, 0xEFCDAB89, 0x98BADCFE, 0x10325476, 0xC3D2E1F0);
  bitlen = 0;
  buffer = [];
}

-- `~` of a `uint32_t`.
abbrev pub complement : ℕ → ℕ
complement x = bit_xor x 0xFFFFFFFF

unfoldable pub leftrotate : ℕ → ℕ → ℕ
leftrotate value bits = bit_or (u32 (value * 2 ^ bits)) (value / 2 ^ (32 - bits))

abbrev pub byte_at : List ℕ → ℕ → ℕ
byte_at bytes i = elim (get_elem? bytes i) [ none ↦ 0 | some b ↦ b ]

-- `w[i]` of the words before it, the latest first: `w[i - 3]` is the word at 2.
unfoldable pub expand : ℕ → List ℕ → List ℕ
unfolding leftrotate
expand zero w = w
expand (suc n) w = expand n (
    leftrotate
      (bit_xor (bit_xor (bit_xor (byte_at w 2) (byte_at w 7)) (byte_at w 13)) (byte_at w 15)) 1
    ∷ w)

-- The first sixteen words of a block, appended to those in front, the latest first.
unfoldable pub load : List ℕ → List ℕ → List ℕ
load (a ∷ b ∷ c ∷ d ∷ bytes) w =
    load bytes (bit_or (bit_or (bit_or (u32 (a * 2 ^ 24)) (b * 2 ^ 16)) (c * 2 ^ 8)) d ∷ w)
load _ w = w

-- `f` and `k` of round `i`.
unfoldable pub mix : ℕ → ℕ → ℕ → ℕ → ℕ × ℕ
mix i b c d =
    if ltb i 20
    then (bit_or (bit_and b c) (bit_and (complement b) d), 0x5A827999)
    else if ltb i 40
    then (bit_xor (bit_xor b c) d, 0x6ED9EBA1)
    else if ltb i 60
    then (bit_or (bit_or (bit_and b c) (bit_and b d)) (bit_and c d), 0x8F1BBCDC)
    else (bit_xor (bit_xor b c) d, 0xCA62C1D6)

-- The rounds from `i` on, over the words from `w[i]` on.
unfoldable pub rounds : ℕ → List ℕ → Words → Words
unfolding leftrotate mix
rounds i [] s = s
rounds i (w ∷ ws) (a, b, c, d, e) =
    let (f, k) = mix i b c d in
    rounds (i + 1) ws (u32 (leftrotate a 5 + f + e + k + w), a, leftrotate b 30, c, d)

unfoldable pub reversed : List ℕ → List ℕ → List ℕ
reversed [] ys = ys
reversed (x ∷ xs) ys = reversed xs (x ∷ ys)

unfoldable pub sha1_transform : Words → List ℕ → Words
unfolding rounds load expand reversed
sha1_transform (h0, h1, h2, h3, h4) block =
    let (a, b, c, d, e) = rounds 0 (reversed (expand 64 (load block [])) []) (h0, h1, h2, h3, h4) in
    (u32 (h0 + a), u32 (h1 + b), u32 (h2 + c), u32 (h3 + d), u32 (h4 + e))

-- One round of the loop of `sha1_update`.
unfoldable pub update_byte : Context → ℕ → Context
unfolding sha1_transform
update_byte ctx byte =
    let buffer = ctx.buffer ++ (byte ∷ []) in
    if length buffer == 64
    then record {
      state = sha1_transform ctx.state buffer;
      bitlen = u64 (ctx.bitlen + 512);
      buffer = [];
    }
    else record ctx { buffer = buffer }

unfoldable pub sha1_update : Context → List ℕ → Context
unfolding update_byte
sha1_update ctx [] = ctx
sha1_update ctx (b ∷ bytes) = sha1_update (update_byte ctx b) bytes

-- The loop over `i` from `n - 1` down to 0: the bytes of a word, highest first.
unfoldable pub word_bytes : ℕ → ℕ → List ℕ
word_bytes zero v = []
word_bytes (suc n) v = bit_and (v / 2 ^ (n * 8)) 0xFF ∷ word_bytes n v

-- The state before the last block, and the bytes of the last block before the length.
unfoldable pub pad : Words → List ℕ → Words × List ℕ
unfolding sha1_transform
pad state buffer =
    let full = buffer ++ (0x80 ∷ []) in
    if ltb 56 (length full)
    then (sha1_transform state (full ++ replicate (64 - length full) 0), replicate 56 0)
    else (state, full ++ replicate (56 - length full) 0)

unfoldable pub sha1_final : Context → List ℕ
unfolding pad word_bytes
sha1_final ctx =
    let bitlen = u64 (ctx.bitlen + length ctx.buffer * 8) in
    let (state, block) = pad ctx.state ctx.buffer in
    let (a, b, c, d, e) = sha1_transform state (block ++ word_bytes 8 bitlen) in
    word_bytes 4 a ++ (word_bytes 4 b ++ (word_bytes 4 c ++ (word_bytes 4 d ++ word_bytes 4 e)))

unfoldable pub sha1_compute : List ℕ → List ℕ
unfolding sha1_init sha1_update sha1_final
sha1_compute bytes = sha1_final (sha1_update sha1_init bytes)
