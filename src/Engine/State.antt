-- ===== src/Engine/State.antt =====
-- The engine's state (src/server/quic.h), and what it asks of the system.
use ott_quic.Common.{ℕ, ◌+◌, Bool, true, false, Option, List, replicate, u64}
use ott_quic.Packet.{Packet, max_packet_size}
use ott_quic.Stream.{Manager}

abbrev pub max_connections : ℕ
max_connections = 32

abbrev pub connection_timeout : ℕ
connection_timeout = 30

abbrev pub max_pending : ℕ
max_pending = 64

abbrev pub retrans_timeout : ℕ
retrans_timeout = 1

abbrev pub max_retries : ℕ
max_retries = 3

-- `quic_connection_state_t`.
pub data ConnState : Type 0 where
  idle connecting connected closed : ConnState

-- `state == QUIC_CONN_STATE_CONNECTING`, and so on.
abbrev pub is_connecting : ConnState → Bool
is_connecting connecting = true
is_connecting _ = false

abbrev pub is_connected : ConnState → Bool
is_connected connected = true
is_connected _ = false

abbrev pub is_closed : ConnState → Bool
is_closed closed = true
is_closed _ = false

abbrev pub is_idle : ConnState → Bool
is_idle idle = true
is_idle _ = false

-- `quic_metrics_t`.
pub record Metrics : Type 0 where
  pub packets_received : ℕ
  pub packets_sent : ℕ
  pub connections_opened : ℕ
  pub connections_closed : ℕ
  pub connections_migrated : ℕ

-- `++` of a `uint64_t` counter.
abbrev pub count_up : ℕ → ℕ
count_up n = u64 (n + 1)

-- `quic_connection_entry_t`. An address is a number, of which the code asks only equality.
pub record Entry : Type 0 where
  pub connection_id : ℕ
  pub addr : ℕ
  pub last_seen : ℕ
  pub state : ConnState
  pub in_use : Bool
  pub stream_mgr : Manager

-- `quic_pending_entry_t`: `buffer` is the first `len` bytes of the source's buffer.
pub record PendingEntry : Type 0 where
  pub in_use : Bool
  pub connection_id : ℕ
  pub packet_number : ℕ
  pub buffer : List ℕ
  pub last_sent : ℕ
  pub retries : ℕ

-- `quic_engine_t` without the socket, thread and lock: `sock` says whether `sockfd` is open, and
-- the three handlers are present or not.
pub record Engine : Type 0 where
  pub sock : Bool
  pub port : ℕ
  pub running : Bool
  pub handler : Bool
  pub stream_handler : Bool
  pub state_handler : Bool
  pub recv_timeout_sec : ℕ
  pub metrics : Metrics
  pub connections : List Entry
  pub pending : List PendingEntry

-- What the engine does to the outside: `sendto`, and calls of the three handlers.
pub data Event : Type 0 where
  sent : ℕ → List ℕ → Event
  state_event : ℕ → ConnState → ℕ → Event
  stream_data : ℕ → ℕ → ℕ → List ℕ → Event
  packet_event : Packet → ℕ → Event

-- What the system answers while one call runs: the clock, which does not tick within a call, the
-- result of `sendto` to an address (`none` is negative), and whether `malloc` succeeds.
pub record Env : Type 0 where
  pub now : ℕ
  pub sendto : ℕ → List ℕ → Option ℕ
  pub alloc : Bool

-- The buffer on the stack into which `quic_engine_send` serialises. Its first contents are never
-- sent: a packet of the engine with no payload pointer has length 0.
unfoldable pub stack_buffer : List ℕ
stack_buffer = replicate max_packet_size 0
