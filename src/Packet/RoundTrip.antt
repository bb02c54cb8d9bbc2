-- ===== src/Packet/RoundTrip.antt =====
-- What `quic_packet_serialize` writes, `quic_packet_deserialize` reads.
use ott_quic.Common.{
  ℕ, ◌+◌, ◌^◌, ◌≤◌, ◌<◌, ◌≡◌, refl, sym, ap, ◌∙◌, some, List, ◌++◌, length, take, drop,
  length-append, length-take, length-drop, append_assoc, take-length-append, ℕ_discrete, arith,
}
use mathlib.Core.Path.{ap₂}
use ott_quic.Packet.{
  Packet, header_size, max_payload, header, body, serialize, deserialize, byte_at, le_bytes,
  of_le_bytes, htonl, host_to_be64, be64_to_host, word_at,
}
use ott_quic.Packet.Words.{read_word, read_long}

-- The values of the fields fit their C types, and the pointer holds the payload.
pub record IsPacket (p : Packet) (bytes : List ℕ) : Type 0 where
  pub flags_fit : p.flags < 2 ^ 8
  pub connection_id_fits : p.connection_id < 2 ^ 64
  pub packet_number_fits : p.packet_number < 2 ^ 32
  pub stream_id_fits : p.stream_id < 2 ^ 32
  pub offset_fits : p.offset < 2 ^ 32
  pub length_fits : p.payload_length < 2 ^ 32
  pub payload_eq : p.payload ≡ some bytes
  pub payload_holds : p.payload_length ≤ length bytes

pub length-header : (p : Packet) → length (header p) ≡ header_size
unfolding header le_bytes
length-header p = refl

-- The words of a header, whatever follows it.
header_words :
    (p : Packet) (rest : List ℕ)
    → (word_at (header p ++ rest) 1 8 ≡ of_le_bytes (le_bytes 8 (host_to_be64 p.connection_id)))
      × (word_at (header p ++ rest) 9 4 ≡ of_le_bytes (le_bytes 4 (htonl p.packet_number)))
      × (word_at (header p ++ rest) 13 4 ≡ of_le_bytes (le_bytes 4 (htonl p.stream_id)))
      × (word_at (header p ++ rest) 17 4 ≡ of_le_bytes (le_bytes 4 (htonl p.offset)))
      × (word_at (header p ++ rest) 21 4 ≡ of_le_bytes (le_bytes 4 (htonl p.payload_length)))
unfolding header le_bytes word_at
header_words p rest = (refl, refl, refl, refl, refl)

header_rest : (p : Packet) (rest : List ℕ) → drop header_size (header p ++ rest) ≡ rest
unfolding header le_bytes
header_rest p rest = refl

header_flags : (p : Packet) (rest : List ℕ) → byte_at (header p ++ rest) 0 ≡ p.flags
unfolding header le_bytes byte_at
header_flags p rest = refl

-- A header followed by enough bytes is read as the packet, its payload what follows.
deserialize-header :
    (p : Packet) (bytes rest : List ℕ)
    → IsPacket p bytes
    → p.payload_length ≤ max_payload
    → p.payload_length ≤ length rest
    → deserialize (header p ++ rest) ≡ some (record p { payload = some rest })
unfolding deserialize
deserialize-header p bytes rest v small enough =
    let (w1, w9, w13, w17, w21) = header_words p rest in
    let n = length-append (header p) rest in
    ground (
      arith,
      n,
      length-header p,
      header_flags p rest,
      header_rest p rest,
      ap be64_to_host w1 ∙ read_long p.connection_id v.connection_id_fits,
      ap htonl w9 ∙ read_word p.packet_number v.packet_number_fits,
      ap htonl w13 ∙ read_word p.stream_id v.stream_id_fits,
      ap htonl w17 ∙ read_word p.offset v.offset_fits,
      ap htonl w21 ∙ read_word p.payload_length v.length_fits,
    )

-- The payload bytes written are the first `payload_length` bytes at the pointer.
body_lem : (p : Packet) (bytes : List ℕ) → IsPacket p bytes → body p ≡ take p.payload_length bytes
unfolding body
body_lem p bytes v =
    rw v.payload_eq
      (elim (ℕ_discrete p.payload_length 0) [ yes e ↦ rw e refl | no ne ↦ ground arith ])

-- A packet whose fields fit and that is too long neither for the format nor for the buffer is
-- written, and the buffer keeps its size; the bytes written, with whatever is received behind
-- them, are read as the same packet, its payload the bytes written of it and what follows.
pub deserialize-serialize :
    (p : Packet) (bytes buffer rest : List ℕ)
    → IsPacket p bytes
    → p.payload_length ≤ max_payload
    → header_size + p.payload_length ≤ length buffer
    → (out : List ℕ) × (serialize p buffer ≡ some (out, header_size + p.payload_length))
      × (length out ≡ length buffer)
      × (deserialize (take (header_size + p.payload_length) out ++ rest)
          ≡ some (record p { payload = some (take p.payload_length bytes ++ rest) }))
unfolding serialize
deserialize-serialize p bytes buffer rest v small room =
    let n = length-header p in
    let b = body_lem p bytes v in
    let wire = header p ++ body p in
    let k : length wire ≡ header_size + p.payload_length = omega (
      arith,
      length-append (header p) (body p),
      ap length b,
      length-take p.payload_length bytes,
      v.payload_holds,
      n,
    ) in
    let tail = drop (length wire) buffer in
    (
      header p ++ (body p ++ tail),
      ground arith,
      omega (
        arith,
        k,
        length-append (header p) (body p ++ tail),
        length-append (header p) (body p),
        length-append (body p) tail,
        length-drop (length wire) buffer,
      ),
      ap (λ t. deserialize (t ++ rest))
            (ap₂ take (sym k) (sym (append_assoc (header p) (body p) tail))
              ∙ take-length-append wire tail)
          ∙ ap deserialize (append_assoc (header p) (body p) rest)
          ∙ deserialize-header p bytes (body p ++ rest) v small
              (omega (arith, k, n, length-append (header p) (body p), length-append (body p) rest))
          ∙ ap (λ t. some (record p { payload = some (t ++ rest) })) b,
    )
