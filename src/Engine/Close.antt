-- ===== src/Engine/Close.antt =====
-- The end of a connection: by the server, by its peer, and by silence.
use ott_quic.Common.{
  ℕ, zero, suc, ◌≡◌, ◌≢◌, ◌⊎◌, refl, sym, ◌∙◌, Bool, true, false, ◌&&◌, Option, none, some, List,
  [], ◌∷◌, ◌==◌, get_elem?, set, take, All, Bool-cases, Option-cases, inl, inr, arith,
}
use mathlib.Core.Path.{subst}
use ott_quic.Packet.{Packet, has_flag, flag_close, flag_initial, flag_data, serialize}
use ott_quic.Engine.State.{
  Entry, PendingEntry, Engine, Env, Event, ConnState, closed, is_closed, count_up, stack_buffer,
}
use ott_quic.Engine.Pending.{clear_loop, track_pending, sent_all}
use ott_quic.Engine.Table.{find_entry, add_connection, new_entry, close_entry, cleanup_connections}
use ott_quic.Engine.Process.{
  Processed, process_packet, process_known, process_unknown, process_entry, process_close,
}
use ott_quic.Engine.Api.{
  send, send_close, close_locked, tell_closed, close_connection, close_packet,
}
use ott_quic.Engine.Invariant.{live, Distinct, EngineInv, get_elem?-Live}
use ott_quic.Engine.Slots.{find_entry-some, add_connection-TableInv}
use ott_quic.Engine.Preserve.{cleanup_connections-EngineInv}

-- No packet of a connection waits for an acknowledgement.
abbrev pub Silent : ℕ → List PendingEntry → Type 0
Silent id = All (λ (p : PendingEntry). (p.in_use && (p.connection_id == id)) ≡ false)

clear_loop-Silent : (id : ℕ) (ps : List PendingEntry) → Silent id (clear_loop id ps)
unfolding clear_loop
clear_loop-Silent id [] = tt
clear_loop-Silent id (p ∷ ps) = (ground arith, clear_loop-Silent id ps)

-- The entry that was found is the only one of its connection.
find_entry-set_closed :
    (cs : List Entry) (id i : ℕ) (c' : Entry)
    → find_entry cs id ≡ some i
    → c'.in_use ≡ false
    → Distinct cs
    → find_entry (set cs i c') id ≡ none
unfolding find_entry
find_entry-set_closed [] id i c' h u d = refl
find_entry-set_closed (c ∷ cs) id zero c' h u (a, d) = ground arith
find_entry-set_closed (c ∷ cs) id (suc i) c' h u (a, d) =
    ground (arith, find_entry-set_closed cs id i c')

-- Other connections are where they were.
find_entry-set_other :
    (cs : List Entry) (j i : ℕ) (c c' : Entry)
    → get_elem? cs i ≡ some c
    → (c.connection_id == j) ≡ false
    → (c'.connection_id == j) ≡ false
    → find_entry (set cs i c') j ≡ find_entry cs j
unfolding find_entry
find_entry-set_other [] j i c c' at n n' = refl
find_entry-set_other (x ∷ cs) j zero c c' at n n' = ground arith
find_entry-set_other (x ∷ cs) j (suc i) c c' at n n' =
    ground (arith, find_entry-set_other cs j i c c')

live-not_closed : (c : Entry) → live c ≡ true → c.in_use ≡ true → is_closed c.state ≡ false
live-not_closed c l u = ground arith

-- What `quic_engine_close_connection` does to the engine: it succeeds exactly if the connection is in
-- the table, and then no slot is in use for it and no packet of it waits.
abbrev pub ClosedBy : Engine → ℕ → Bool × Engine × List Event → Type 0
ClosedBy engine id r =
    ((r.0 ≡ false) × (r.1 ≡ engine) × (find_entry engine.connections id ≡ none) × (r.2 ≡ []))
    ⊎ ((r.0 ≡ true)
        × (find_entry engine.connections id ≢ none)
        × (find_entry r.1.connections id ≡ none)
        × Silent id r.1.pending)

track_pending-connections :
    (now : ℕ) (engine : Engine) (packet : Packet) (buffer : List ℕ)
    → (track_pending now engine packet buffer).connections ≡ engine.connections
unfolding track_pending
track_pending-connections now engine packet buffer = ground arith

track_pending-pending :
    (now : ℕ) (engine : Engine) (packet : Packet) (buffer : List ℕ)
    → has_flag packet.flags flag_data ≡ false
    → (track_pending now engine packet buffer).pending ≡ engine.pending
unfolding track_pending
track_pending-pending now engine packet buffer f = rw f (ground arith)

-- Sending a packet without the flag `data` leaves both tables alone.
pub send-tables :
    (env : Env) (engine : Engine) (packet : Packet) (addr : ℕ)
    → has_flag packet.flags flag_data ≡ false
    → ((send env engine packet addr).1.connections ≡ engine.connections)
      × ((send env engine packet addr).1.pending ≡ engine.pending)
unfolding send
send-tables env engine packet addr f = elim (Option-cases (serialize packet stack_buffer)) [
  | inl n ↦ rw (n, send) (refl, refl)
  | inr ((buffer, len), s) ↦
      rw (s, send)
        (elim (Bool-cases (sent_all (env.sendto addr (take len buffer)) len)) [
          | inl b ↦
              rw b (track_pending-connections _ _ packet _, track_pending-pending _ _ packet _ f)
          | inr b ↦ rw b (refl, refl)
        ])
]

close_locked-none :
    (engine : Engine) (id : ℕ)
    → find_entry engine.connections id ≡ none
    → ◌≡◌ {A = Option ℕ × Engine} (close_locked engine id) (none, engine)
unfolding close_locked
close_locked-none engine id n = rw (n, close_locked) refl

-- The engine without the connection in slot `i`.
abbrev closing : Engine → ℕ → Entry → ℕ → Engine
closing engine i c id = record engine {
  connections = set engine.connections i (close_entry c);
  pending = clear_loop id engine.pending;
  metrics = record (engine.metrics) {
    connections_closed = count_up engine.metrics.connections_closed;
  };
}

close_locked-some :
    (engine : Engine) (id i : ℕ) (c : Entry)
    → find_entry engine.connections id ≡ some i
    → get_elem? engine.connections i ≡ some c
    → is_closed c.state ≡ false
    → ◌≡◌ {A = Option ℕ × Engine} (close_locked engine id) (some c.addr, closing engine i c id)
unfolding close_locked
close_locked-some engine id i c n at o = rw (n, close_locked) (rw at (rw o refl))

some-none : (i : ℕ) → ◌≢◌ {A = Option ℕ} (some i) none
some-none i h = absurd (cc)

-- `quic_engine_close_connection` succeeds exactly if the connection is in the table. Then no slot is
-- in use for it and no packet of it waits for an acknowledgement; otherwise nothing changes. The
-- hypothesis: the engine satisfies the invariant.
pub close_connection-ClosedBy :
    (env : Env) (engine : Engine) (id : ℕ)
    → EngineInv engine
    → ClosedBy engine id (close_connection env engine id)
unfolding close_connection tell_closed send_close close_entry
close_connection-ClosedBy env engine id inv =
    elim (Option-cases (find_entry engine.connections id)) [
      | inl n ↦
          subst (λ (r : Option ℕ × Engine). ClosedBy engine id (tell_closed env id r))
            (sym (close_locked-none engine id n)) (inl (refl, refl, n, refl))
      | inr (i, n) ↦
          let (c, at, used, same) = find_entry-some engine.connections id i n in
          let open_lem =
            live-not_closed c (get_elem?-Live engine.connections i c at inv.table.states) used in
          let tables = send-tables env (closing engine i c id) (close_packet id) c.addr refl in
          subst (λ (r : Option ℕ × Engine). ClosedBy engine id (tell_closed env id r))
            (sym (close_locked-some engine id i c n at open_lem))
            (inr (
              refl,
              (λ m. some-none i (sym n ∙ m)),
              subst (λ (cs : List Entry). find_entry cs id ≡ none) (sym tables.0)
                  (find_entry-set_closed engine.connections id i (close_entry c) n refl
                    inv.table.distinct),
              subst (Silent id) (sym tables.1) (clear_loop-Silent id engine.pending),
            ))
    ]

-- After a packet with the flag `close` no slot is in use for its connection, whether it was accepted
-- or not; if it was, no packet of the connection waits, and the state that is reported is `closed`.
abbrev pub ClosedByPeer : ℕ → Processed → Type 0
ClosedByPeer id r =
    (find_entry r.engine.connections id ≡ none)
    × ((r.rc ≡ false) ⊎ (Silent id r.engine.pending × (r.state_changed ≡ closed)))

process_entry-ClosedByPeer :
    (engine : Engine) (i : ℕ) (c : Entry) (packet : Packet) (addr : ℕ) (created : Bool)
    (changed : ConnState) (changed_addr : ℕ)
    → EngineInv engine
    → find_entry engine.connections packet.connection_id ≡ some i
    → has_flag packet.flags flag_close ≡ true
    → ClosedByPeer packet.connection_id
        (process_entry engine i c packet addr created changed changed_addr)
unfolding process_entry process_close close_entry
process_entry-ClosedByPeer engine i c packet addr created changed changed_addr inv n f = rw f (
  find_entry-set_closed engine.connections _ i (close_entry c) n refl inv.table.distinct,
  inr (clear_loop-Silent packet.connection_id engine.pending, refl),
)

process_unknown-ClosedByPeer :
    (now : ℕ) (engine : Engine) (packet : Packet) (addr : ℕ)
    → EngineInv engine
    → find_entry engine.connections packet.connection_id ≡ none
    → has_flag packet.flags flag_close ≡ true
    → ClosedByPeer packet.connection_id (process_unknown now engine packet addr)
unfolding process_unknown
process_unknown-ClosedByPeer now engine packet addr inv n f =
    let entry = new_entry now packet.connection_id addr in
    elim (Bool-cases (has_flag packet.flags flag_initial)) [
      | inr b ↦ rw b (n, inl refl)
      | inl b ↦ rw b (elim (Option-cases (add_connection entry engine.connections)) [
        | inl full ↦ rw full (n, inl refl)
        | inr (cs, e) ↦
            let inv' : EngineInv (record engine { connections = cs }) = record {
              table = add_connection-TableInv entry engine.connections cs e n refl inv.table;
              waiting = inv.waiting;
            } in
            rw e (elim (Option-cases (find_entry cs packet.connection_id)) [
              | inl m ↦ rw m (m, inl refl)
              | inr (i, m) ↦
                  rw m (process_entry-ClosedByPeer _ i entry packet addr true _ _ inv' m f)
            ])
      ])
    ]

-- When a packet with the flag `close` has been processed, no slot is in use for its connection,
-- whether the packet was accepted or not. If it was accepted, no packet of the connection waits for
-- an acknowledgement, and the state that is reported is `closed`. The hypothesis: the engine
-- satisfies the invariant.
pub process_packet-ClosedByPeer :
    (now : ℕ) (engine : Engine) (packet : Packet) (addr : ℕ)
    → EngineInv engine
    → has_flag packet.flags flag_close ≡ true
    → ClosedByPeer packet.connection_id (process_packet now engine packet addr)
unfolding process_packet process_known
process_packet-ClosedByPeer now engine packet addr inv f =
    let engine' = cleanup_connections now engine in
    let inv' = cleanup_connections-EngineInv now engine inv in
    elim (Option-cases (find_entry engine'.connections packet.connection_id)) [
      | inl n ↦
          rw (n, process_packet) (process_unknown-ClosedByPeer now engine' packet addr inv' n f)
      | inr (i, n) ↦
          let (c, at, used, same) = find_entry-some engine'.connections packet.connection_id i n in
          rw (n, process_packet)
            (rw at (
              process_entry-ClosedByPeer _ i _ packet addr false _ _
                (record { table = inv'.table; waiting = inv'.waiting }) n f))
    ]
