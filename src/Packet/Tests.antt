-- ===== src/Packet/Tests.antt =====
-- A packet on the wire, and the theorems at concrete inputs.
use ott_quic.Common.{
  ℕ, ◌≤◌, ◌≡◌, refl, some, none, List, [], ◌∷◌, ◌++◌, length, take, drop, replicate, arith,
}
use ott_quic.Packet.{
  Packet, flag_data, header, body, serialize, deserialize, le_bytes, of_le_bytes, htonl,
  host_to_be64, be64_to_host, word_at, byte_at, max_payload,
}
use ott_quic.Packet.RoundTrip.{IsPacket, deserialize-serialize}
use ott_quic.Packet.Reverse.{serialize-deserialize}

abbrev sample_bytes : List ℕ
sample_bytes = 9 ∷ 8 ∷ 7 ∷ 5 ∷ []

abbrev sample : Packet
sample = record {
  flags = flag_data;
  connection_id = 0x0123_4567_89ab_cdef;
  packet_number = 7;
  stream_id = 1;
  offset = 300;
  payload_length = 3;
  payload = some sample_bytes;
}

-- The words go out with the highest byte first, and three of the four payload bytes.
abbrev sample_wire : List ℕ
sample_wire =
    4 ∷ 0x01 ∷ 0x23 ∷ 0x45 ∷ 0x67 ∷ 0x89 ∷ 0xab ∷ 0xcd ∷ 0xef ∷ 0 ∷ 0 ∷ 0 ∷ 7 ∷ 0 ∷ 0 ∷ 0 ∷ 1 ∷ 0
    ∷ 0 ∷ 1 ∷ 44 ∷ 0 ∷ 0 ∷ 0 ∷ 3 ∷ 9 ∷ 8 ∷ 7 ∷ []

sample_serialized : serialize sample (replicate 30 255) ≡ some (sample_wire ++ 255 ∷ 255 ∷ [], 28)
unfolding serialize header body le_bytes htonl host_to_be64
sample_serialized = refl

serialize_too_small : serialize sample (replicate 27 0) ≡ none
unfolding serialize
serialize_too_small = refl

deserialize_cut : deserialize (take 27 sample_wire) ≡ none
unfolding deserialize word_at of_le_bytes htonl
deserialize_cut = refl

sample-IsPacket : IsPacket sample sample_bytes
sample-IsPacket = record {
  flags_fit = omega arith;
  connection_id_fits = omega arith;
  packet_number_fits = omega arith;
  stream_id_fits = omega arith;
  offset_fits = omega arith;
  length_fits = omega arith;
  payload_eq = refl;
  payload_holds = omega arith;
}

deserialize-serialize_example :
    (out : List ℕ) × (serialize sample (replicate 30 255) ≡ some (out, 28))
    × (length out ≡ 30)
    × (deserialize (take 28 out ++ []) ≡ some (record sample { payload = some (9 ∷ 8 ∷ 7 ∷ []) }))
deserialize-serialize_example =
    deserialize-serialize sample sample_bytes (replicate 30 255) [] sample-IsPacket (omega arith)
      (omega arith)

abbrev received : Packet
received = record sample { payload = some (9 ∷ 8 ∷ 7 ∷ 6 ∷ []) }

sample_received : deserialize (sample_wire ++ 6 ∷ []) ≡ some received
unfolding deserialize word_at byte_at of_le_bytes htonl be64_to_host
sample_received = refl

serialize-deserialize_example :
    (28 ≤ 29)
    × (3 ≤ max_payload)
    × (serialize received (replicate 30 0)
        ≡ some (take 28 (sample_wire ++ 6 ∷ []) ++ drop 28 (replicate 30 0), 28))
serialize-deserialize_example =
    serialize-deserialize (sample_wire ++ 6 ∷ []) (replicate 30 0) received (omega arith)
      sample_received (omega arith)
