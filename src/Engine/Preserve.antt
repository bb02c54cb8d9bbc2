-- ===== src/Engine/Preserve.antt =====
-- Every call of the engine keeps its invariant.
use ott_quic.Common.{
  ℕ, ◌≡◌, refl, sym, Bool, true, false, none, some, List, ◌==◌, length, get_elem?, set, take,
  Bool-cases, Option-cases, inl, inr, arith,
}
use mathlib.Core.Path.{subst}
use ott_quic.Packet.{Packet, has_flag, flag_close, flag_initial, flag_data, serialize}
use ott_quic.Engine.State.{Entry, Engine, Env, ConnState, stack_buffer, is_connected}
use ott_quic.Engine.Pending.{sent_all, track_pending, ack_pending}
use ott_quic.Engine.Table.{find_entry, add_connection, new_entry, close_entry, cleanup_connections}
use ott_quic.Engine.Process.{
  process_close, process_open, shake, process_entry, process_known, process_unknown, process_packet,
}
use ott_quic.Engine.Api.{entry_of, send, get_connection}
use ott_quic.Engine.Invariant.{
  live, TableInv, PendingInv, EngineInv, Keeps, set-TableInv, get_elem?-Live,
}
use ott_quic.Engine.Tables.{
  cleanup_loop-TableInv, cleanup_loop-PendingInv, clear_loop-PendingInv, ack_loop-PendingInv,
  put_pending-PendingInv,
}
use ott_quic.Engine.Slots.{find_entry-some, add_connection-TableInv}

pub cleanup_connections-EngineInv :
    (now : ℕ) (engine : Engine) → EngineInv engine → EngineInv (cleanup_connections now engine)
unfolding cleanup_connections
cleanup_connections-EngineInv now engine inv = record {
  table = cleanup_loop-TableInv now engine.connections engine.pending _ inv.table;
  waiting = cleanup_loop-PendingInv now engine.connections engine.pending _ inv.waiting;
}

pub track_pending-EngineInv :
    (now : ℕ) (engine : Engine) (packet : Packet) (buffer : List ℕ)
    → EngineInv engine
    → EngineInv (track_pending now engine packet buffer)
unfolding track_pending
track_pending-EngineInv now engine packet buffer inv = elim (Bool-cases (length buffer == 0)) [
  | inl e ↦ rw e inv
  | inr e ↦ elim (Bool-cases (has_flag packet.flags flag_data)) [
    | inr d ↦ rw e (rw d inv)
    | inl d ↦
        rw e (
          rw d
            (record { table = inv.table; waiting = put_pending-PendingInv _ _ refl inv.waiting }))
  ]
]

pub ack_pending-EngineInv :
    (engine : Engine) (id number : ℕ) → EngineInv engine → EngineInv (ack_pending engine id number)
unfolding ack_pending
ack_pending-EngineInv engine id number inv = record {
  table = inv.table;
  waiting = ack_loop-PendingInv id number engine.pending inv.waiting;
}

pub send-EngineInv :
    (env : Env) (engine : Engine) (packet : Packet) (addr : ℕ)
    → EngineInv engine
    → EngineInv (send env engine packet addr).1
unfolding send
send-EngineInv env engine packet addr inv = elim (Option-cases (serialize packet stack_buffer)) [
  | inl n ↦ rw (n, send) inv
  | inr ((buffer, len), s) ↦
      rw (s, send)
        (elim (Bool-cases (sent_all (env.sendto addr (take len buffer)) len)) [
          | inl b ↦ rw b (
              track_pending-EngineInv _ _ packet _
                (record { table = inv.table; waiting = inv.waiting }))
          | inr b ↦ rw b inv
        ])
]

-- Writing an entry of the table back.
pub set-EngineInv :
    (engine engine' : Engine) (i : ℕ) (c c' : Entry)
    → EngineInv engine
    → get_elem? engine.connections i ≡ some c
    → Keeps c c'
    → live c' ≡ true
    → engine'.connections ≡ set engine.connections i c'
    → PendingInv engine'.pending
    → EngineInv engine'
set-EngineInv engine engine' i c c' inv at k l e w = record {
  table = subst TableInv (sym e) (set-TableInv engine.connections i c c' at k l inv.table);
  waiting = w;
}

process_entry-EngineInv :
    (engine : Engine) (i : ℕ) (old c : Entry) (packet : Packet) (addr : ℕ) (created : Bool)
    (changed : ConnState) (changed_addr : ℕ)
    → EngineInv engine
    → get_elem? engine.connections i ≡ some old
    → Keeps old c
    → live c ≡ true
    → EngineInv (process_entry engine i c packet addr created changed changed_addr).engine
unfolding process_entry process_close process_open shake close_entry
process_entry-EngineInv engine i old c packet addr created changed changed_addr inv at k l =
    elim (Bool-cases (has_flag packet.flags flag_close)) [
      | inl e ↦ rw e (
          set-EngineInv engine _ i old (close_entry c) inv at (inl refl) refl refl
            (clear_loop-PendingInv _ _ inv.waiting))
      | inr e ↦
          rw e
            (set-EngineInv engine _ i old (shake c packet) inv at k (ground arith) refl inv.waiting)
    ]

process_known-EngineInv :
    (now : ℕ) (engine : Engine) (i : ℕ) (c : Entry) (packet : Packet) (addr : ℕ)
    → EngineInv engine
    → get_elem? engine.connections i ≡ some c
    → EngineInv (process_known now engine i c packet addr).engine
unfolding process_known
process_known-EngineInv now engine i c packet addr inv at =
    process_entry-EngineInv _ i c _ packet addr false _ _
      (record { table = inv.table; waiting = inv.waiting }) at (inr (refl, refl))
      (get_elem?-Live engine.connections i c at inv.table.states)

process_unknown-EngineInv :
    (now : ℕ) (engine : Engine) (packet : Packet) (addr : ℕ)
    → EngineInv engine
    → find_entry engine.connections packet.connection_id ≡ none
    → EngineInv (process_unknown now engine packet addr).engine
unfolding process_unknown
process_unknown-EngineInv now engine packet addr inv n =
    let entry = new_entry now packet.connection_id addr in
    elim (Bool-cases (has_flag packet.flags flag_initial)) [
      | inr f ↦ rw f inv
      | inl f ↦ rw f (elim (Option-cases (add_connection entry engine.connections)) [
        | inl full ↦ rw full inv
        | inr (cs, e) ↦ rw e (
            let inv' : EngineInv (record engine { connections = cs }) = record {
              table = add_connection-TableInv entry engine.connections cs e n refl inv.table;
              waiting = inv.waiting;
            } in
            elim (Option-cases (find_entry cs packet.connection_id)) [
              | inl m ↦ rw m inv'
              | inr (i, m) ↦
                  let (old, at, used, same) = find_entry-some cs packet.connection_id i m in
                  rw m (
                    process_entry-EngineInv _ i old entry packet addr true _ _ inv' at
                      (inr (sym used, sym same)) refl)
            ])
      ])
    ]

pub process_packet-EngineInv :
    (now : ℕ) (engine : Engine) (packet : Packet) (addr : ℕ)
    → EngineInv engine
    → EngineInv (process_packet now engine packet addr).engine
unfolding process_packet
process_packet-EngineInv now engine packet addr inv =
    let engine' = cleanup_connections now engine in
    let inv' = cleanup_connections-EngineInv now engine inv in
    elim (Option-cases (find_entry engine'.connections packet.connection_id)) [
      | inl n ↦ rw (n, process_packet) (process_unknown-EngineInv now engine' packet addr inv' n)
      | inr (i, n) ↦
          rw (n, process_packet)
            (elim (Option-cases (get_elem? engine'.connections i)) [
              | inl m ↦ rw m inv'
              | inr (c, m) ↦ rw m (process_known-EngineInv now engine' i c packet addr inv' m)
            ])
    ]

pub entry_of-some :
    (engine : Engine) (id i : ℕ) (c : Entry)
    → entry_of engine id ≡ some (i, c)
    → (find_entry engine.connections id ≡ some i) × (get_elem? engine.connections i ≡ some c)
unfolding entry_of
entry_of-some engine id i c h = ground arith

pub get_connection-EngineInv :
    (now : ℕ) (engine : Engine) (id : ℕ)
    → EngineInv engine
    → EngineInv (get_connection now engine id).1
unfolding get_connection
get_connection-EngineInv now engine id inv =
    let engine' = cleanup_connections now engine in
    let inv' = cleanup_connections-EngineInv now engine inv in
    elim (Option-cases (entry_of engine' id)) [
      | inl n ↦ rw (n, get_connection) inv'
      | inr ((i, c), n) ↦
          rw (n, get_connection)
            (elim (Bool-cases (is_connected c.state)) [
              | inr b ↦ rw b inv'
              | inl b ↦ rw b (
                  set-EngineInv engine' _ i c _ inv' (entry_of-some engine' id i c n).1
                    (inr (refl, refl))
                    (get_elem?-Live engine'.connections i c (entry_of-some engine' id i c n).1
                      inv'.table.states)
                    refl inv'.waiting)
            ])
    ]
