-- ===== src/Packet/Reverse.antt =====
-- What `quic_packet_deserialize` accepts, and that serialising it gives the datagram back.
use ott_quic.Common.{
  ℕ, ◌+◌, ◌≤◌, ◌≡◌, refl, sym, ap, ◌∙◌, some, List, [], ◌∷◌, ◌++◌, length, take, drop, length-take,
  length-drop, append_assoc, take-add, drop-drop, take-All, drop-All, All, IsByte, ℕ_discrete,
  arith,
}
use mathlib.Core.Path.{ap₂}
use ott_quic.Packet.{
  Packet, header_size, max_payload, header, body, serialize, deserialize, byte_at, le_bytes,
  of_le_bytes, htonl, host_to_be64, be64_to_host, word_at,
}
use ott_quic.Packet.Words.{store_word, store_long}

-- The first 25 bytes of a datagram, cut into its words.
cut_header :
    (flags : ℕ) (rest : List ℕ)
    → take header_size (flags ∷ rest)
      ≡ flags
        ∷ (take 8 rest
            ++ (take 4 (drop 8 rest)
                ++ (take 4 (drop 12 rest) ++ (take 4 (drop 16 rest) ++ take 4 (drop 20 rest)))))
cut_header flags rest =
    ap (λ t. flags ∷ t)
      (take-add 8 16 rest
        ∙ ap (λ t. take 8 rest ++ t)
            (take-add 4 12 (drop 8 rest)
              ∙ ap (λ t. take 4 (drop 8 rest) ++ t)
                  (ap (take 12) (drop-drop 4 8 rest)
                    ∙ take-add 4 8 (drop 12 rest)
                    ∙ ap (λ t. take 4 (drop 12 rest) ++ t)
                        (ap (take 8) (drop-drop 4 12 rest)
                          ∙ take-add 4 4 (drop 16 rest)
                          ∙ ap (λ t. take 4 (drop 16 rest) ++ t)
                              (ap (take 4) (drop-drop 4 16 rest))))))

module _ (rest : List ℕ) (bytes : All IsByte rest) (long : 24 ≤ length rest) where
  word_bytes :
      (i : ℕ)
      → i + 4 ≤ 24
      → le_bytes 4 (htonl (htonl (of_le_bytes (take 4 (drop i rest))))) ≡ take 4 (drop i rest)
  word_bytes i h =
      store_word (take 4 (drop i rest))
        (take-All IsByte 4 (drop i rest) (drop-All IsByte i rest bytes))
        (omega (arith, length-take 4 (drop i rest), length-drop i rest))

  long_bytes : le_bytes 8 (host_to_be64 (be64_to_host (of_le_bytes (take 8 rest)))) ≡ take 8 rest
  long_bytes =
      store_long (take 8 rest) (take-All IsByte 8 rest bytes) (omega (arith, length-take 8 rest))

-- What an accepted datagram says of the packet.
accepted :
    (datagram : List ℕ) (p : Packet)
    → deserialize datagram ≡ some p
    → (header_size ≤ length datagram)
      × (p.payload_length ≤ max_payload)
      × (header_size + p.payload_length ≤ length datagram)
      × (p.payload ≡ some (drop header_size datagram))
      × (p.flags ≡ byte_at datagram 0)
      × (p.connection_id ≡ be64_to_host (word_at datagram 1 8))
      × (p.packet_number ≡ htonl (word_at datagram 9 4))
      × (p.stream_id ≡ htonl (word_at datagram 13 4))
      × (p.offset ≡ htonl (word_at datagram 17 4))
      × (p.payload_length ≡ htonl (word_at datagram 21 4))
unfolding deserialize
accepted datagram p h = ground arith

header-accepted :
    (datagram : List ℕ) (p : Packet)
    → All IsByte datagram
    → deserialize datagram ≡ some p
    → header p ≡ take header_size datagram
unfolding header word_at byte_at
header-accepted [] p b h = absurd (omega (arith, accepted [] p h))
header-accepted (flags ∷ rest) p (b, bs) h =
    let (long, small, room, payload, e0, e1, e2, e3, e4, e5) = accepted (flags ∷ rest) p h in
    let word = word_bytes rest bs (omega arith) in
    ap₂ ◌∷◌ e0 (
      ap₂ ◌++◌ (ap (λ (v : ℕ). le_bytes 8 (host_to_be64 v)) e1 ∙ long_bytes rest bs (omega arith)) (
        ap₂ ◌++◌ (ap (λ (v : ℕ). le_bytes 4 (htonl v)) e2 ∙ word 8 (omega arith)) (
          ap₂ ◌++◌ (ap (λ (v : ℕ). le_bytes 4 (htonl v)) e3 ∙ word 12 (omega arith)) (
            ap₂ ◌++◌ (ap (λ (v : ℕ). le_bytes 4 (htonl v)) e4 ∙ word 16 (omega arith))
              (ap (λ (v : ℕ). le_bytes 4 (htonl v)) e5 ∙ word 20 (omega arith))))))
    ∙ sym (cut_header flags rest)

body-accepted :
    (datagram : List ℕ) (p : Packet)
    → p.payload ≡ some (drop header_size datagram)
    → body p ≡ take p.payload_length (drop header_size datagram)
unfolding body
body-accepted datagram p e =
    rw e (elim (ℕ_discrete p.payload_length 0) [ yes z ↦ rw z refl | no z ↦ ground arith ])

-- Whatever datagram of bytes is accepted, the payload lies inside it and is at most `max_payload`
-- long, and serialising the packet into a buffer as long as the datagram writes the datagram's bytes
-- again up to the end of the payload, and leaves the rest of the buffer alone.
pub serialize-deserialize :
    (datagram buffer : List ℕ) (p : Packet)
    → All IsByte datagram
    → deserialize datagram ≡ some p
    → length datagram ≤ length buffer
    → let n = header_size + p.payload_length in
      (n ≤ length datagram)
      × (p.payload_length ≤ max_payload)
      × (serialize p buffer ≡ some (take n datagram ++ drop n buffer, n))
unfolding serialize
serialize-deserialize datagram buffer p b h room =
    let (long, small, fits, payload, _, _, _, _, _, _) = accepted datagram p h in
    let n = header_size + p.payload_length in
    let wire : header p ++ body p ≡ take n datagram =
      ap₂ ◌++◌ (header-accepted datagram p b h) (body-accepted datagram p payload)
      ∙ sym (take-add header_size p.payload_length datagram) in
    let k : length (header p ++ body p) ≡ n =
      ap length wire ∙ omega (arith, length-take n datagram) in
    (
      fits,
      small,
      ground (
        arith,
        sym (append_assoc (header p) (body p) (drop (length (header p ++ body p)) buffer)),
        wire,
        k,
      ),
    )
