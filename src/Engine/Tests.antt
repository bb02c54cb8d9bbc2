-- ===== src/Engine/Tests.antt =====
-- The engine at concrete inputs, and its theorems there.
use ott_quic.Common.{
  ℕ, ◌≤◌, ◌+◌, refl, true, false, none, some, List, [], ◌∷◌, length, replicate, arith,
}
use ott_quic.Packet.{Packet, flag_close}
use ott_quic.Engine.State.{Engine, Env, PendingEntry}
use ott_quic.Engine.Pending.{retransmit_loop}
use ott_quic.Engine.Table.{new_entry, cleanup_connections}
use ott_quic.Engine.Process.{process_packet}
use ott_quic.Engine.Api.{init, close_connection}
use ott_quic.Engine.Loop.{on_datagram}
use ott_quic.Engine.Invariant.{EngineInv}
use ott_quic.Engine.Reach.{Reachable, started, stepped, datagram, reachable_lem}
use ott_quic.Engine.Retransmit.{
  budget, length-retransmit_loop-budget, AllHandled, retransmit_loop-AllHandled,
}
use ott_quic.Engine.Close.{
  ClosedBy, ClosedByPeer, close_connection-ClosedBy, process_packet-ClosedByPeer,
}
use ott_quic.Engine.Cleanup.{Cleaned, cleanup_connections-Cleaned}

-- A system at second 100 that sends every datagram whole.
abbrev env : Env
env = record { now = 100; sendto = λ addr bytes. some (length bytes); alloc = true }

-- An INITIAL packet without payload of connection 5.
abbrev initial_datagram : List ℕ
initial_datagram = 1 ∷ 0 ∷ 0 ∷ 0 ∷ 0 ∷ 0 ∷ 0 ∷ 0 ∷ 5 ∷ 0 ∷ 0 ∷ 0 ∷ 1 ∷ replicate 12 0

abbrev engine : Engine
engine = (on_datagram env (init true true 4433 true).1 initial_datagram 77).0

engine-Reachable : Reachable engine
engine-Reachable = stepped (started 4433 true) (datagram env _ initial_datagram 77)

reachable_lem_example : EngineInv engine
reachable_lem_example = reachable_lem engine engine-Reachable

close_connection-ClosedBy_example : ClosedBy engine 5 (close_connection env engine 5)
close_connection-ClosedBy_example =
    close_connection-ClosedBy env engine 5 (reachable_lem engine engine-Reachable)

abbrev close_5 : Packet
close_5 = record {
  flags = flag_close;
  connection_id = 5;
  packet_number = 9;
  stream_id = 0;
  offset = 0;
  payload_length = 0;
  payload = none;
}

process_packet-ClosedByPeer_example : ClosedByPeer 5 (process_packet 101 engine close_5 77)
process_packet-ClosedByPeer_example =
    process_packet-ClosedByPeer 101 engine close_5 77 (reachable_lem engine engine-Reachable) refl

abbrev pending_5 : PendingEntry
pending_5 = record {
  in_use = true;
  connection_id = 5;
  packet_number = 3;
  buffer = 4 ∷ [];
  last_sent = 90;
  retries = 2;
}

-- Connection 5 has been silent since second 95, and a packet of it waits.
abbrev quiet : Engine
quiet = record {
  sock = true;
  port = 4433;
  running = true;
  handler = true;
  stream_handler = false;
  state_handler = false;
  recv_timeout_sec = 1;
  metrics = record {
    packets_received = 1;
    packets_sent = 1;
    connections_opened = 1;
    connections_closed = 0;
    connections_migrated = 0;
  };
  connections = new_entry 95 5 77 ∷ new_entry 101 6 77 ∷ [];
  pending = pending_5 ∷ [];
}

cleanup_connections-Cleaned_example : Cleaned 131 quiet (cleanup_connections 131 quiet)
cleanup_connections-Cleaned_example = cleanup_connections-Cleaned 131 quiet (omega arith)

length-retransmit_loop-budget_example :
    length (retransmit_loop env (new_entry 95 5 77 ∷ []) (pending_5 ∷ []) 0).2
      + budget (retransmit_loop env (new_entry 95 5 77 ∷ []) (pending_5 ∷ []) 0).0
    ≤ 1
length-retransmit_loop-budget_example =
    length-retransmit_loop-budget env (new_entry 95 5 77 ∷ []) (pending_5 ∷ []) 0 (refl, tt)

-- Entry 3 of connection 5 is due and sent for the third time, and freed.
retransmit_loop-AllHandled_example :
    let r = retransmit_loop env (new_entry 95 5 77 ∷ []) (pending_5 ∷ []) 0 in
    AllHandled env (new_entry 95 5 77 ∷ []) (pending_5 ∷ []) r.0 r.2
retransmit_loop-AllHandled_example =
    retransmit_loop-AllHandled env (new_entry 95 5 77 ∷ []) (pending_5 ∷ []) 0
