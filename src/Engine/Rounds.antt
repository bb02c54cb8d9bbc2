-- ===== src/Engine/Rounds.antt =====
-- The rounds of the engine's thread and the calls of the server keep the invariant.
use ott_quic.Common.{
  ℕ, refl, ◌&&◌, Option, none, some, List, if◌then◌else◌, Bool-cases, Option-cases, inl, inr,
}
use ott_quic.Packet.{Packet, has_flag, flag_data, flag_ack, deserialize}
use ott_quic.Engine.State.{Engine, Env, is_closed}
use ott_quic.Engine.Pending.{ack_pending, retransmit_pending}
use ott_quic.Engine.Table.{close_entry, cleanup_connections}
use ott_quic.Engine.Process.{Processed, process_packet}
use ott_quic.Engine.Api.{
  entry_of, send_handshake, send_close, get_connection, send_to_connection, close_locked,
  tell_closed, close_connection,
}
use ott_quic.Engine.Loop.{
  reassemble, receive_data, after_process, on_packet, on_datagram, on_timeout, ack_packet,
}
use ott_quic.Engine.Invariant.{EngineInv, get_elem?-Live}
use ott_quic.Engine.Tables.{clear_loop-PendingInv, retransmit_loop-PendingInv}
use ott_quic.Engine.Preserve.{
  cleanup_connections-EngineInv, ack_pending-EngineInv, send-EngineInv, set-EngineInv,
  process_packet-EngineInv, entry_of-some, get_connection-EngineInv,
}

close_locked-EngineInv :
    (engine : Engine) (id : ℕ) → EngineInv engine → EngineInv (close_locked engine id).1
unfolding close_locked close_entry
close_locked-EngineInv engine id inv = elim (Option-cases (entry_of engine id)) [
  | inl n ↦ rw (n, close_locked) inv
  | inr ((i, c), n) ↦
      rw (n, close_locked)
        (elim (Bool-cases (is_closed c.state)) [
          | inl b ↦ rw b inv
          | inr b ↦ rw b (
              set-EngineInv engine _ i c (close_entry c) inv (entry_of-some engine id i c n).1
                (inl refl) refl refl (clear_loop-PendingInv _ _ inv.waiting))
        ])
]

tell_closed-EngineInv :
    (env : Env) (id : ℕ) (r : Option ℕ × Engine)
    → EngineInv r.1
    → EngineInv (tell_closed env id r).1
unfolding tell_closed send_close
tell_closed-EngineInv env id (none, engine) inv = inv
tell_closed-EngineInv env id (some addr, engine) inv = send-EngineInv env engine _ addr inv

pub close_connection-EngineInv :
    (env : Env) (engine : Engine) (id : ℕ)
    → EngineInv engine
    → EngineInv (close_connection env engine id).1
unfolding close_connection
close_connection-EngineInv env engine id inv =
    tell_closed-EngineInv env id (close_locked engine id) (close_locked-EngineInv engine id inv)

pub send_to_connection-EngineInv :
    (env : Env) (engine : Engine) (packet : Packet)
    → EngineInv engine
    → EngineInv (send_to_connection env engine packet).1
unfolding send_to_connection
send_to_connection-EngineInv env engine packet inv =
    let inv' = get_connection-EngineInv env.now engine packet.connection_id inv in
    elim (Option-cases (get_connection env.now engine packet.connection_id).0) [
      | inl n ↦ rw (n, send_to_connection) inv'
      | inr (addr, n) ↦ rw (n, send_to_connection) (send-EngineInv env _ packet addr inv')
    ]

reassemble-EngineInv :
    (env : Env) (engine : Engine) (packet : Packet)
    → EngineInv engine
    → EngineInv (reassemble env engine packet).0
unfolding reassemble
reassemble-EngineInv env engine packet inv =
    elim (Option-cases (entry_of engine packet.connection_id)) [
      | inl n ↦ rw (n, reassemble) inv
      | inr ((i, c), n) ↦
          let at = (entry_of-some engine packet.connection_id i c n).1 in
          rw (n, reassemble)
            (set-EngineInv engine _ i c _ inv at (inr (refl, refl))
              (get_elem?-Live engine.connections i c at inv.table.states) refl inv.waiting)
    ]

receive_data-EngineInv :
    (env : Env) (engine : Engine) (packet : Packet) (addr : ℕ)
    → EngineInv engine
    → EngineInv (receive_data env engine packet addr).0
unfolding receive_data
receive_data-EngineInv env engine packet addr inv =
    elim (Bool-cases (has_flag packet.flags flag_data && engine.stream_handler)) [
      | inl b ↦ rw b (
          send-EngineInv env _ (ack_packet packet) addr
            (reassemble-EngineInv env engine packet inv))
      | inr b ↦ rw b inv
    ]

after_process-EngineInv :
    (env : Env) (r : Processed) (packet : Packet) (addr : ℕ)
    → EngineInv r.engine
    → EngineInv (after_process env r packet addr).0
unfolding after_process send_handshake
after_process-EngineInv env r packet addr inv = elim (Bool-cases r.handshake_needed) [
  | inl b ↦ rw b (receive_data-EngineInv env _ packet addr (send-EngineInv env r.engine _ addr inv))
  | inr b ↦ rw b (receive_data-EngineInv env r.engine packet addr inv)
]

on_packet-EngineInv :
    (env : Env) (engine : Engine) (packet : Packet) (addr : ℕ)
    → EngineInv engine
    → EngineInv (on_packet env engine packet addr).0
unfolding on_packet
on_packet-EngineInv env engine packet addr inv =
    let engine' : Engine =
      if has_flag packet.flags flag_ack
      then ack_pending engine packet.connection_id packet.packet_number
      else engine in
    let inv' : EngineInv engine' = elim (Bool-cases (has_flag packet.flags flag_ack)) [
      | inl b ↦ rw b (ack_pending-EngineInv engine _ _ inv)
      | inr b ↦ rw b inv
    ] in
    let r = process_packet env.now engine' packet addr in
    let done = process_packet-EngineInv env.now engine' packet addr inv' in
    elim (Bool-cases r.rc) [
      | inl b ↦ rw (b, on_packet) (after_process-EngineInv env r packet addr done)
      | inr b ↦ rw (b, on_packet) done
    ]

pub on_datagram-EngineInv :
    (env : Env) (engine : Engine) (datagram : List ℕ) (addr : ℕ)
    → EngineInv engine
    → EngineInv (on_datagram env engine datagram addr).0
unfolding on_datagram
on_datagram-EngineInv env engine datagram addr inv = elim (Option-cases (deserialize datagram)) [
  | inl n ↦ rw (n, on_datagram) (record { table = inv.table; waiting = inv.waiting })
  | inr (packet, n) ↦
      rw (n, on_datagram)
        (on_packet-EngineInv env _ packet addr
          (record { table = inv.table; waiting = inv.waiting }))
]

pub on_timeout-EngineInv :
    (env : Env) (engine : Engine) → EngineInv engine → EngineInv (on_timeout env engine).0
unfolding on_timeout retransmit_pending
on_timeout-EngineInv env engine inv =
    let inv' = cleanup_connections-EngineInv env.now engine inv in
    record {
      table = inv'.table;
      waiting =
          retransmit_loop-PendingInv env (cleanup_connections env.now engine).connections _
            (cleanup_connections env.now engine).metrics.packets_sent inv'.waiting;
    }
