-- ===== src/Engine/Process.antt =====
-- `quic_engine_process_packet`.
use ott_quic.Common.{
  ℕ, Bool, true, false, ◌&&◌, ◌||◌, not, none, some, ◌==◌, if◌then◌else◌, set, get_elem?,
}
use ott_quic.Packet.{Packet, has_flag, flag_initial, flag_handshake, flag_close}
use Prim.Native.Nat.{bit_or}
use ott_quic.Engine.State.{
  Entry, Engine, ConnState, idle, connecting, connected, closed, is_connecting, is_connected,
  count_up,
}
use ott_quic.Engine.Pending.{clear_loop}
use ott_quic.Engine.Table.{find_entry, add_connection, new_entry, close_entry, cleanup_connections}

-- The return code, 0 as `true`, the engine, and the results through pointers: `handshake_needed`,
-- `state_changed`, which stays `idle` if it is not written, and `state_addr`.
pub record Processed : Type 0 where
  pub rc : Bool
  pub engine : Engine
  pub handshake_needed : Bool
  pub state_changed : ConnState
  pub state_addr : ℕ

abbrev pub rejected : Engine → Processed
rejected engine = record {
  rc = false;
  engine = engine;
  handshake_needed = false;
  state_changed = idle;
  state_addr = 0;
}

-- The branch of a packet with the flag `close`, at the entry `c` in slot `i`.
unfoldable pub process_close : Engine → ℕ → Entry → Packet → ℕ → Bool → Processed
process_close engine i c packet addr created = record {
  rc = true;
  engine = record engine {
    connections = set engine.connections i (close_entry c);
    pending = clear_loop packet.connection_id engine.pending;
    metrics = record (engine.metrics) {
      connections_closed = count_up engine.metrics.connections_closed;
    };
  };
  handshake_needed = created;
  state_changed = closed;
  state_addr = addr;
}

-- The handshake completes: the state after the test of `connecting` and the flag.
unfoldable pub shakes : Entry → Packet → Bool
shakes c packet = is_connecting c.state && has_flag packet.flags flag_handshake

unfoldable pub shake : Entry → Packet → Entry
unfolding shakes
shake c packet = record c { state = if shakes c packet then connected else c.state }

unfoldable pub process_open : Engine → ℕ → Entry → Packet → ℕ → Bool → ConnState → ℕ → Processed
unfolding shake
process_open engine i c packet addr created changed changed_addr = record {
  rc =
      is_connected (shake c packet).state
      || has_flag packet.flags (bit_or flag_initial flag_handshake);
  engine = record engine {
    connections = set engine.connections i (shake c packet);
    metrics = record (engine.metrics) {
      connections_opened =
          if created
          then count_up engine.metrics.connections_opened
          else engine.metrics.connections_opened;
    };
  };
  handshake_needed = created;
  state_changed = if shakes c packet then connected else changed;
  state_addr = if shakes c packet then addr else changed_addr;
}

-- From the test of the flag `close` on.
unfoldable pub process_entry : Engine → ℕ → Entry → Packet → ℕ → Bool → ConnState → ℕ → Processed
process_entry engine i c packet addr created changed changed_addr =
    if has_flag packet.flags flag_close
    then process_close engine i c packet addr created
    else process_open engine i c packet addr created changed changed_addr

-- A packet of a connection in the table: it may have moved to another address.
unfoldable pub process_known : ℕ → Engine → ℕ → Entry → Packet → ℕ → Processed
process_known now engine i c packet addr =
    let moved = not (c.addr == addr) in
    process_entry
      (record engine {
        metrics = record (engine.metrics) {
          connections_migrated =
              if moved
              then count_up engine.metrics.connections_migrated
              else engine.metrics.connections_migrated;
        };
      })
      i (record c { addr = addr; last_seen = now }) packet addr false
      (if moved then c.state else idle) (if moved then addr else 0)

-- A packet of no connection in the table: it must open one, and there must be a free slot.
unfoldable pub process_unknown : ℕ → Engine → Packet → ℕ → Processed
process_unknown now engine packet addr =
    if not (has_flag packet.flags flag_initial)
    then rejected engine
    else elim (add_connection (new_entry now packet.connection_id addr) engine.connections) [
      | none ↦ rejected engine
      | some connections ↦ elim (find_entry connections packet.connection_id) [
        | none ↦ rejected (record engine { connections = connections })
        | some i ↦
            process_entry (record engine { connections = connections }) i
              (new_entry now packet.connection_id addr) packet addr true connecting addr
      ]
    ]

unfoldable pub process_packet : ℕ → Engine → Packet → ℕ → Processed
process_packet now engine packet addr =
    let engine' = cleanup_connections now engine in
    elim (find_entry engine'.connections packet.connection_id) [
      | none ↦ process_unknown now engine' packet addr
      | some i ↦ elim (get_elem? engine'.connections i) [
        | none ↦ rejected engine'
        | some c ↦ process_known now engine' i c packet addr
      ]
    ]
