-- ===== src/Engine/Api.antt =====
-- The functions that the rest of the server calls on an engine.
use ott_quic.Common.{
  ℕ, Bool, true, false, not, Option, none, some, List, [], ◌∷◌, ◌++◌, if◌then◌else◌, set, get_elem?,
  take, replicate,
}
use ott_quic.Packet.{Packet, flag_handshake, flag_ack, flag_close, serialize}
use ott_quic.Stream.{zero_state, max_streams}
use Prim.Native.Nat.{bit_or}
use ott_quic.Engine.State.{
  Entry, PendingEntry, Engine, Metrics, Env, Event, sent, state_event, ConnState, idle, closed,
  is_connected, is_closed, count_up, stack_buffer, max_connections, max_pending,
}
use ott_quic.Engine.Pending.{track_pending, clear_loop, sent_all}
use ott_quic.Engine.Table.{find_entry, close_entry, cleanup_connections}

-- The entry of a connection, with its index.
unfoldable pub entry_of : Engine → ℕ → Option (ℕ × Entry)
entry_of engine id = elim (find_entry engine.connections id) [
  | none ↦ none
  | some i ↦ elim (get_elem? engine.connections i) [ none ↦ none | some c ↦ some (i, c) ]
]

-- The return code, 0 as `true`, the engine, and what is given to `sendto`. The source sends before it
-- takes the lock and calls `quic_engine_track_pending` after it released it: that nothing else runs
-- in between is an assumption.
unfoldable pub send : Env → Engine → Packet → ℕ → Bool × Engine × List Event
send env engine packet addr = elim (serialize packet stack_buffer) [
  | none ↦ (false, engine, [])
  | some (buffer, len) ↦
      let bytes = take len buffer in
      if sent_all (env.sendto addr bytes) len
      then (
        true,
        track_pending env.now
            (record engine {
              metrics = record (engine.metrics) {
                packets_sent = count_up engine.metrics.packets_sent;
              };
            })
            packet bytes,
        sent addr bytes ∷ [],
      )
      else (false, engine, sent addr bytes ∷ [])
]

abbrev pub handshake_packet : ℕ → Packet
handshake_packet id = record {
  flags = bit_or flag_handshake flag_ack;
  connection_id = id;
  packet_number = 1;
  stream_id = 0;
  offset = 0;
  payload_length = 0;
  payload = none;
}

unfoldable pub send_handshake : Env → Engine → ℕ → ℕ → Bool × Engine × List Event
send_handshake env engine addr id = send env engine (handshake_packet id) addr

abbrev pub close_packet : ℕ → Packet
close_packet id = record {
  flags = flag_close;
  connection_id = id;
  packet_number = 0;
  stream_id = 0;
  offset = 0;
  payload_length = 0;
  payload = none;
}

unfoldable pub send_close : Env → Engine → ℕ → ℕ → Bool × Engine × List Event
send_close env engine addr id = send env engine (close_packet id) addr

unfoldable pub emit_state : Engine → ℕ → ConnState → ℕ → List Event
emit_state engine id state addr =
    if engine.state_handler then state_event id state addr ∷ [] else []

-- `*addr_out`, or `none` for the code -1, and the engine.
unfoldable pub get_connection : ℕ → Engine → ℕ → Option ℕ × Engine
unfolding entry_of
get_connection now engine id =
    let engine' = cleanup_connections now engine in
    elim (entry_of engine' id) [
      | none ↦ (none, engine')
      | some (i, c) ↦
          if is_connected c.state
          then (
            some c.addr,
            record engine' {
              connections = set engine'.connections i (record c { last_seen = now });
            },
          )
          else (none, engine')
    ]

unfoldable pub send_to_connection : Env → Engine → Packet → Bool × Engine × List Event
send_to_connection env engine packet =
    let (found, engine') = get_connection env.now engine packet.connection_id in
    elim found [ none ↦ (false, engine', []) | some addr ↦ send env engine' packet addr ]

-- What `quic_engine_close_connection` does under the lock: the address, if it closed anything.
unfoldable pub close_locked : Engine → ℕ → Option ℕ × Engine
unfolding entry_of
close_locked engine id = elim (entry_of engine id) [
  | none ↦ (none, engine)
  | some (i, c) ↦
      if not (is_closed c.state)
      then (
        some c.addr,
        record engine {
          connections = set engine.connections i (close_entry c);
          pending = clear_loop id engine.pending;
          metrics = record (engine.metrics) {
            connections_closed = count_up engine.metrics.connections_closed;
          };
        },
      )
      else (none, engine)
]

-- What it does after the unlock: the packet that tells the peer, and the handler.
unfoldable pub tell_closed : Env → ℕ → Option ℕ × Engine → Bool × Engine × List Event
tell_closed env id (none, engine) = (false, engine, [])
tell_closed env id (some addr, engine) =
    let (_, engine', events) = send_close env engine addr id in
    (true, engine', events ++ emit_state engine' id closed addr)

unfoldable pub close_connection : Env → Engine → ℕ → Bool × Engine × List Event
unfolding tell_closed
close_connection env engine id = tell_closed env id (close_locked engine id)

-- `*out_state`, or `none` for the code -1.
unfoldable pub get_connection_state : Engine → ℕ → Option ConnState
unfolding entry_of
get_connection_state engine id = elim (entry_of engine id) [
  | none ↦ none
  | some (i, c) ↦ some c.state
]

-- The argument is whether a handler is given.
unfoldable pub set_state_handler : Engine → Bool → Engine
set_state_handler engine given = record engine { state_handler = given }

unfoldable pub set_stream_data_handler : Engine → Bool → Engine
set_stream_data_handler engine given = record engine { stream_handler = given }

unfoldable pub get_metrics : Engine → Metrics
get_metrics engine = engine.metrics

unfoldable pub set_recv_timeout : Engine → ℕ → Engine
set_recv_timeout engine seconds = record engine { recv_timeout_sec = seconds }

abbrev pub zero_entry : Entry
zero_entry = record {
  connection_id = 0;
  addr = 0;
  last_seen = 0;
  state = idle;
  in_use = false;
  stream_mgr = replicate max_streams zero_state;
}

abbrev pub zero_pending : PendingEntry
zero_pending = record {
  in_use = false;
  connection_id = 0;
  packet_number = 0;
  buffer = [];
  last_sent = 0;
  retries = 0;
}

-- What `memset` and the assignments of `quic_engine_init` leave, before the socket is opened.
unfoldable pub blank : ℕ → Bool → Engine
blank port handler = record {
  sock = false;
  port = port;
  running = false;
  handler = handler;
  stream_handler = false;
  state_handler = false;
  recv_timeout_sec = 1;
  metrics = record {
    packets_received = 0;
    packets_sent = 0;
    connections_opened = 0;
    connections_closed = 0;
    connections_migrated = 0;
  };
  connections = replicate max_connections zero_entry;
  pending = replicate max_pending zero_pending;
}

-- The two Booleans say whether `socket` and `bind` succeed.
unfoldable pub init : Bool → Bool → ℕ → Bool → Bool × Engine
unfolding blank
init socket_ok bind_ok port handler =
    if not socket_ok
    then (false, blank port handler)
    else if not bind_ok
    then (false, blank port handler)
    else (true, record (blank port handler) { sock = true; running = true })

unfoldable pub stop : Engine → Engine
stop engine = record engine { running = false; sock = false }

unfoldable pub destroy : Engine → Engine
destroy engine = record engine { sock = false; connections = replicate max_connections zero_entry }
