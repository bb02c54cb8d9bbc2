-- ===== src/Client/Chunk.antt =====
-- `send_video_chunk` of src/server/websocket.c.
use ott_quic.Common.{
  ℕ, zero, suc, ◌+◌, ◌-◌, Bool, true, false, not, ◌||◌, Option, none, some, List, [], ◌∷◌, ◌++◌,
  ltb, leb, ◌==◌, if◌then◌else◌, length, take, drop, u32,
}
use ott_quic.Packet.{Packet, flag_data, max_payload}
use ott_quic.Engine.State.{Engine, Env, Event}
use ott_quic.Engine.Api.{send_to_connection}

-- What a chunk leaves: whether all was sent, the engine, what it did to the outside, the packets
-- that were given to it, and the next packet number.
pub record Chunk : Type 0 where
  pub ok : Bool
  pub engine : Engine
  pub events : List Event
  pub packets : List Packet
  pub next_packet_number : ℕ

-- The packet of one round.
abbrev pub chunk_packet : ℕ → ℕ → ℕ → ℕ → List ℕ → Packet
chunk_packet connection_id stream_id number offset piece = record {
  flags = flag_data;
  connection_id = connection_id;
  packet_number = number;
  stream_id = stream_id;
  offset = offset;
  payload_length = u32 (length piece);
  payload = some piece;
}

-- What comes before a round joins what the later rounds do.
abbrev pub with_packet : Packet → List Event → Chunk → Chunk
with_packet packet events r = record r { events = events ++ r.events; packets = packet ∷ r.packets }

module _ (env : ℕ → Env) (connection_id stream_id offset size : ℕ) where
  -- The loop: `file` is what `fread` has not read yet, `sent` and `remaining` are `sent_bytes` and
  -- `remaining`. A round that does not end the loop reads a byte at least: one round more than bytes
  -- is enough.
  unfoldable pub chunk_loop : ℕ → Engine → ℕ → List ℕ → ℕ → ℕ → Chunk
  chunk_loop zero engine number file sent remaining = record {
    ok = false;
    engine = engine;
    events = [];
    packets = [];
    next_packet_number = number;
  }
  chunk_loop (suc rounds) engine number file sent remaining =
      let piece = take (if ltb max_payload remaining then max_payload else remaining) file in
      let packet = chunk_packet connection_id stream_id number (u32 (offset + sent)) piece in
      let (ok, engine', events) = send_to_connection (env rounds) engine packet in
      let number' = u32 (number + 1) in
      let sent' = u32 (sent + length piece) in
      let later =
        chunk_loop rounds engine' number' (drop (length piece) file) sent'
          (remaining - length piece) in
      if (remaining == 0) || (not (ltb (u32 (sent + offset)) (u32 size)) || (length piece == 0))
      then record {
        ok = true;
        engine = engine;
        events = [];
        packets = [];
        next_packet_number = number;
      }
      else if not ok
      then record {
        ok = false;
        engine = engine';
        events = events;
        packets = packet ∷ [];
        next_packet_number = number';
      }
      else if leb (u32 size) (u32 (sent' + offset))
      then record {
        ok = true;
        engine = engine';
        events = events;
        packets = packet ∷ [];
        next_packet_number = number';
      }
      else with_packet packet events later

-- `send_video_chunk`: the file's size, if `stat` finds it, and its bytes, if it can be read.
unfoldable pub send_video_chunk :
    (ℕ → Env) → Engine → ℕ → ℕ → ℕ → ℕ → Option ℕ → Option (List ℕ) → ℕ → Chunk
unfolding chunk_loop
send_video_chunk env engine connection_id stream_id offset wanted size file number =
    let failed : Chunk = record {
      ok = false;
      engine = engine;
      events = [];
      packets = [];
      next_packet_number = number;
    } in
    elim size [
      | none ↦ failed
      | some size ↦ if leb (u32 size) offset then failed else elim file [
        | none ↦ failed
        | some bytes ↦
            let rest = drop offset bytes in
            chunk_loop env connection_id stream_id offset size (suc (length rest)) engine number
              rest 0 wanted
      ]
    ]
