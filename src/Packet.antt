-- ===== src/Packet.antt =====
-- src/server/quic.c: a packet, its bytes on the wire, and the way back. Byte order is that of the
-- little-endian branch of the conditional compilation: `htonl` swaps.
pub mod Words
pub mod RoundTrip
pub mod Reverse
mod Tests
use Prim.Native.Nat.{bit_or, bit_and}
use ott_quic.Common.{
  ℕ, zero, suc, ◌+◌, ◌*◌, ◌/◌, ◌%◌, ◌^◌, Bool, not, ◌||◌, ◌&&◌, Option, none, some, List, [], ◌∷◌,
  ◌++◌, ltb, ◌==◌, if◌then◌else◌, length, take, drop, u32,
}

abbrev pub max_payload : ℕ
max_payload = 16 * 1024

abbrev pub header_size : ℕ
header_size = 25

abbrev pub max_packet_size : ℕ
max_packet_size = header_size + max_payload

-- The flags.
abbrev pub flag_initial : ℕ
flag_initial = 0x01

abbrev pub flag_handshake : ℕ
flag_handshake = 0x02

abbrev pub flag_data : ℕ
flag_data = 0x04

abbrev pub flag_ack : ℕ
flag_ack = 0x08

abbrev pub flag_close : ℕ
flag_close = 0x10

-- `flags & mask`, as a condition.
abbrev pub has_flag : ℕ → ℕ → Bool
has_flag flags mask = not (bit_and flags mask == 0)

-- `quic_packet_t`. `payload` is what lies at the pointer, `none` for NULL; its first
-- `payload_length` bytes, the field `length`, are the payload.
pub record Packet : Type 0 where
  pub flags : ℕ
  pub connection_id : ℕ
  pub packet_number : ℕ
  pub stream_id : ℕ
  pub offset : ℕ
  pub payload_length : ℕ
  pub payload : Option (List ℕ)

-- What `memcpy` stores of a word of `n` bytes, lowest byte first, and what it reads.
unfoldable pub le_bytes : ℕ → ℕ → List ℕ
le_bytes zero v = []
le_bytes (suc n) v = (v % 256) ∷ le_bytes n (v / 256)

unfoldable pub of_le_bytes : List ℕ → ℕ
of_le_bytes [] = 0
of_le_bytes (b ∷ bs) = b + 256 * of_le_bytes bs

-- `htonl`, which is `ntohl`, on a little-endian machine: the four bytes in the other order.
unfoldable pub htonl : ℕ → ℕ
htonl v = v % 256 * 2 ^ 24 + v / 2 ^ 8 % 256 * 2 ^ 16 + v / 2 ^ 16 % 256 * 2 ^ 8 + v / 2 ^ 24 % 256

unfoldable pub host_to_be64 : ℕ → ℕ
host_to_be64 v = bit_or (htonl (u32 (v / 2 ^ 32))) (htonl (u32 v) * 2 ^ 32)

unfoldable pub be64_to_host : ℕ → ℕ
be64_to_host v = bit_or (htonl (u32 (v / 2 ^ 32))) (htonl (u32 v) * 2 ^ 32)

-- The bytes that `quic_packet_serialize` stores in front of the payload.
unfoldable pub header : Packet → List ℕ
header p =
    p.flags
    ∷ (le_bytes 8 (host_to_be64 p.connection_id)
        ++ (le_bytes 4 (htonl p.packet_number)
            ++ (le_bytes 4 (htonl p.stream_id)
                ++ (le_bytes 4 (htonl p.offset) ++ le_bytes 4 (htonl p.payload_length)))))

-- The payload bytes that it copies.
unfoldable pub body : Packet → List ℕ
body p = elim p.payload [
  | none ↦ []
  | some bytes ↦ if ltb 0 p.payload_length then take p.payload_length bytes else []
]

-- The buffer after the call, and `*out_len`; `none` is the code -1. The argument is what `buffer`
-- holds before, `buffer_len` bytes.
unfoldable pub serialize : Packet → List ℕ → Option (List ℕ × ℕ)
serialize p buffer =
    let required = header_size + p.payload_length in
    if ltb max_payload p.payload_length
    then none
    else if ltb (length buffer) required
    then none
    else some (header p ++ (body p ++ drop (length (header p ++ body p)) buffer), required)

-- A word of `n` bytes at index `i`.
unfoldable pub word_at : List ℕ → ℕ → ℕ → ℕ
word_at buffer i n = of_le_bytes (take n (drop i buffer))

-- The byte at index `i`; the callers have tested the length.
unfoldable pub byte_at : List ℕ → ℕ → ℕ
byte_at [] i = 0
byte_at (b ∷ bs) zero = b
byte_at (b ∷ bs) (suc i) = byte_at bs i

-- The packet, its payload a pointer into the buffer; `none` is the code -1. The argument is the
-- `buffer_len` bytes of `buffer`.
unfoldable pub deserialize : List ℕ → Option Packet
deserialize buffer =
    let payload_length = htonl (word_at buffer 21 4) in
    if ltb (length buffer) header_size
    then none
    else if ltb max_payload payload_length || ltb (length buffer) (header_size + payload_length)
    then none
    else some (record {
      flags = byte_at buffer 0;
      connection_id = be64_to_host (word_at buffer 1 8);
      packet_number = htonl (word_at buffer 9 4);
      stream_id = htonl (word_at buffer 13 4);
      offset = htonl (word_at buffer 17 4);
      payload_length = payload_length;
      payload = some (drop header_size buffer);
    })
