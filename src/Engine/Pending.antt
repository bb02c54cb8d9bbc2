-- ===== src/Engine/Pending.antt =====
-- The packets that wait for an acknowledgement.
use ott_quic.Common.{
  ℕ, ◌+◌, ◌-◌, Bool, true, false, ◌&&◌, not, Option, none, some, List, [], ◌∷◌, ◌++◌, ltb, leb,
  ◌==◌, if◌then◌else◌, length, take,
}
use ott_quic.Packet.{Packet, has_flag, flag_data, max_packet_size}
use ott_quic.Engine.State.{
  PendingEntry, Entry, Engine, Env, Event, sent, count_up, retrans_timeout, max_retries,
}

-- The loop of `quic_engine_track_pending`: the first slot that is not in use.
unfoldable pub put_pending : PendingEntry → List PendingEntry → List PendingEntry
put_pending entry [] = []
put_pending entry (p ∷ ps) = if p.in_use then p ∷ put_pending entry ps else entry ∷ ps

unfoldable pub track_pending : ℕ → Engine → Packet → List ℕ → Engine
unfolding put_pending
track_pending now engine packet buffer =
    if length buffer == 0
    then engine
    else if not (has_flag packet.flags flag_data)
    then engine
    else record engine {
      pending =
          put_pending
            (record {
              in_use = true;
              connection_id = packet.connection_id;
              packet_number = packet.packet_number;
              buffer =
                  if ltb max_packet_size (length buffer)
                  then take max_packet_size buffer
                  else buffer;
              last_sent = now;
              retries = 0;
            })
            engine.pending;
    }

-- An entry in use for a packet of a connection.
abbrev pub awaits : ℕ → ℕ → PendingEntry → Bool
awaits id number p = p.in_use && ((p.connection_id == id) && (p.packet_number == number))

unfoldable pub ack_loop : ℕ → ℕ → List PendingEntry → List PendingEntry
ack_loop id number [] = []
ack_loop id number (p ∷ ps) =
    if awaits id number p then record p { in_use = false } ∷ ps else p ∷ ack_loop id number ps

unfoldable pub ack_pending : Engine → ℕ → ℕ → Engine
unfolding ack_loop
ack_pending engine id number = record engine { pending = ack_loop id number engine.pending }

unfoldable pub clear_loop : ℕ → List PendingEntry → List PendingEntry
clear_loop id [] = []
clear_loop id (p ∷ ps) =
    (if p.in_use && (p.connection_id == id) then record p { in_use = false } else p)
    ∷ clear_loop id ps

-- The inner loop of `quic_engine_retransmit_pending`: the address of a connection in use.
unfoldable pub addr_of : List Entry → ℕ → Option ℕ
addr_of [] id = none
addr_of (c ∷ cs) id = if c.in_use && (c.connection_id == id) then some c.addr else addr_of cs id

-- `sent == (ssize_t)len`.
abbrev pub sent_all : Option ℕ → ℕ → Bool
sent_all none len = false
sent_all (some n) len = n == len

-- The entry after it was sent again, successfully or not.
unfoldable pub resent : ℕ → Bool → PendingEntry → PendingEntry
resent now true p = record p {
  last_sent = now;
  retries = p.retries + 1;
  in_use = if leb max_retries (p.retries + 1) then false else p.in_use;
}
resent now false p = record p { in_use = false }

-- One entry in the outer loop: the entry, whether `packets_sent` counts up, and what is sent.
unfoldable pub retransmit_entry : Env → List Entry → PendingEntry → PendingEntry × Bool × List Event
unfolding addr_of resent
retransmit_entry env connections p =
    if not p.in_use
    then (p, false, [])
    else if ltb (env.now - p.last_sent) retrans_timeout
    then (p, false, [])
    else elim (addr_of connections p.connection_id) [
      | none ↦ (record p { in_use = false }, false, [])
      | some addr ↦
          let done = sent_all (env.sendto addr p.buffer) (length p.buffer) in
          (resent env.now done p, done, sent addr p.buffer ∷ [])
    ]

-- The outer loop: the entries, how often `packets_sent` counts up, and what is sent.
unfoldable pub retransmit_loop :
    Env → List Entry → List PendingEntry → ℕ → List PendingEntry × ℕ × List Event
retransmit_loop env connections [] count = ([], count, [])
retransmit_loop env connections (p ∷ ps) count =
    let (p', done, events) = retransmit_entry env connections p in
    let (ps', count', later) =
      retransmit_loop env connections ps (if done then count_up count else count) in
    (p' ∷ ps', count', events ++ later)

unfoldable pub retransmit_pending : Env → Engine → Engine × List Event
unfolding retransmit_loop retransmit_entry
retransmit_pending env engine =
    let (pending, count, events) =
      retransmit_loop env engine.connections engine.pending engine.metrics.packets_sent in
    (
      record engine {
        pending = pending;
        metrics = record (engine.metrics) { packets_sent = count };
      },
      events,
    )
