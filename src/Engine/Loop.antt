-- ===== src/Engine/Loop.antt =====
-- `quic_engine_loop`: what one round does with a datagram, or with a receive that timed out.
use ott_quic.Common.{
  ℕ, true, ◌&&◌, not, none, some, List, [], ◌∷◌, ◌++◌, ltb, if◌then◌else◌, set, length, take,
}
use ott_quic.Packet.{Packet, has_flag, flag_data, flag_ack, deserialize, max_payload}
use ott_quic.Stream.{on_data}
use ott_quic.Engine.State.{Engine, Env, Event, packet_event, stream_data, is_idle, count_up}
use ott_quic.Engine.Pending.{ack_pending, retransmit_pending}
use ott_quic.Engine.Table.{cleanup_connections}
use ott_quic.Engine.Process.{process_packet, Processed}
use ott_quic.Engine.Api.{entry_of, send, send_handshake, emit_state}

-- The `payload_length` bytes at the packet's payload.
abbrev pub payload_bytes : Packet → List ℕ
payload_bytes packet = elim packet.payload [
  | none ↦ []
  | some bytes ↦ take packet.payload_length bytes
]

abbrev pub ack_packet : Packet → Packet
ack_packet packet = record {
  flags = flag_ack;
  connection_id = packet.connection_id;
  packet_number = packet.packet_number;
  stream_id = packet.stream_id;
  offset = packet.offset;
  payload_length = 0;
  payload = none;
}

unfoldable pub emit_stream_data : Engine → ℕ → ℕ → ℕ → List ℕ → List Event
emit_stream_data engine id stream_id offset bytes =
    if engine.stream_handler then stream_data id stream_id offset bytes ∷ [] else []

-- The packet's bytes go to the stream of the connection, if that is in the table.
unfoldable pub reassemble : Env → Engine → Packet → Engine × List Event
reassemble env engine packet = elim (entry_of engine packet.connection_id) [
  | none ↦ (engine, [])
  | some (i, c) ↦
      let d =
        on_data env.alloc c.stream_mgr packet.stream_id packet.offset (payload_bytes packet)
          max_payload in
      let engine' = record engine {
        connections = set engine.connections i (record c { stream_mgr = d.mgr });
      } in
      (
        engine',
        if d.rc && ltb 0 (length d.out)
            then elim d.out_offset [
              | none ↦ []
              | some offset ↦
                  emit_stream_data engine' packet.connection_id packet.stream_id offset d.out
            ]
            else [],
      )
]

-- The branch of a packet with the flag `data`, where there is a handler: reassembly, and the
-- acknowledgement.
unfoldable pub receive_data : Env → Engine → Packet → ℕ → Engine × List Event
unfolding reassemble emit_stream_data
receive_data env engine packet addr =
    if has_flag packet.flags flag_data && engine.stream_handler
    then (let (engine', events) = reassemble env engine packet in
        let (_, engine'', later) = send env engine' (ack_packet packet) addr in
        (engine'', events ++ later))
    else (engine, [])

-- From the successful call of `quic_engine_process_packet` on.
unfoldable pub after_process : Env → Processed → Packet → ℕ → Engine × List Event
unfolding receive_data
after_process env r packet addr =
    let told =
      if not (is_idle r.state_changed)
      then emit_state r.engine packet.connection_id r.state_changed r.state_addr
      else [] in
    let (_, engine1, shaken) =
      if r.handshake_needed
      then send_handshake env r.engine addr packet.connection_id
      else (true, r.engine, []) in
    let (engine2, data_events) = receive_data env engine1 packet addr in
    (
      engine2,
      told
          ++ (shaken
              ++ (data_events ++ (if engine2.handler then packet_event packet addr ∷ [] else []))),
    )

-- A packet that was read from a datagram.
unfoldable pub on_packet : Env → Engine → Packet → ℕ → Engine × List Event
unfolding after_process
on_packet env engine packet addr =
    let engine' =
      if has_flag packet.flags flag_ack
      then ack_pending engine packet.connection_id packet.packet_number
      else engine in
    let r = process_packet env.now engine' packet addr in
    if r.rc then after_process env r packet addr else (r.engine, [])

-- A round in which `recvfrom` returns a datagram. The source takes and releases the lock several times
-- in it, and calls `quic_stream_on_data` without it: that nothing else runs in between is an
-- assumption.
unfoldable pub on_datagram : Env → Engine → List ℕ → ℕ → Engine × List Event
unfolding on_packet
on_datagram env engine datagram addr =
    let engine' = record engine {
      metrics = record (engine.metrics) {
        packets_received = count_up engine.metrics.packets_received;
      };
    } in
    elim (deserialize datagram) [
      | none ↦ (engine', [])
      | some packet ↦ on_packet env engine' packet addr
    ]

-- A round in which `recvfrom` times out while the engine runs.
unfoldable pub on_timeout : Env → Engine → Engine × List Event
on_timeout env engine = retransmit_pending env (cleanup_connections env.now engine)
