-- ===== src/Engine/Table.antt =====
-- The connection table.
use ott_quic.Common.{
  ℕ, ◌+◌, ◌-◌, Bool, true, false, ◌&&◌, Option, none, some, List, [], ◌∷◌, ltb, ◌==◌, if◌then◌else◌,
}
use ott_quic.Stream.{manager_init, manager_destroy}
use ott_quic.Engine.State.{
  Entry, PendingEntry, Engine, connecting, closed, count_up, connection_timeout,
}
use ott_quic.Engine.Pending.{clear_loop}

abbrev pub in_use_as : ℕ → Entry → Bool
in_use_as id c = c.in_use && (c.connection_id == id)

-- The index of the entry in use for a connection; `none` is NULL.
unfoldable pub find_entry : List Entry → ℕ → Option ℕ
find_entry [] id = none
find_entry (c ∷ cs) id =
    let later = find_entry cs id in
    if in_use_as id c then some 0 else elim later [ none ↦ none | some i ↦ some (i + 1) ]

abbrev pub new_entry : ℕ → ℕ → ℕ → Entry
new_entry now id addr = record {
  connection_id = id;
  addr = addr;
  last_seen = now;
  state = connecting;
  in_use = true;
  stream_mgr = manager_init;
}

-- `quic_engine_add_connection_locked`: the table with the entry in the first free slot.
unfoldable pub add_connection : Entry → List Entry → Option (List Entry)
add_connection entry [] = none
add_connection entry (c ∷ cs) =
    let later = add_connection entry cs in
    if c.in_use then elim later [ none ↦ none | some cs' ↦ some (c ∷ cs') ] else some (entry ∷ cs)

-- An entry whose connection is over.
unfoldable pub close_entry : Entry → Entry
close_entry c = record c {
  state = closed;
  in_use = false;
  stream_mgr = manager_destroy c.stream_mgr;
}

-- `in_use` and not heard of for more than the timeout.
abbrev pub timed_out : ℕ → Entry → Bool
timed_out now c = c.in_use && ltb connection_timeout (now - c.last_seen)

-- The loop of `quic_engine_cleanup_connections_locked`: the table, the pending packets and the
-- counter of closed connections.
unfoldable pub cleanup_loop :
    ℕ → List Entry → List PendingEntry → ℕ → List Entry × List PendingEntry × ℕ
cleanup_loop now [] pending count = ([], pending, count)
cleanup_loop now (c ∷ cs) pending count =
    let over = timed_out now c in
    let (cs', pending', count') =
      cleanup_loop now cs (if over then clear_loop c.connection_id pending else pending)
        (if over then count_up count else count) in
    ((if over then close_entry c else c) ∷ cs', pending', count')

unfoldable pub cleanup_connections : ℕ → Engine → Engine
unfolding cleanup_loop
cleanup_connections now engine =
    let (connections, pending, count) =
      cleanup_loop now engine.connections engine.pending engine.metrics.connections_closed in
    record engine {
      connections = connections;
      pending = pending;
      metrics = record (engine.metrics) { connections_closed = count };
    }
