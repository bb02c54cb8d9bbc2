-- ===== src/Engine/Reach.antt =====
-- The engine as a step relation: its thread's rounds and the server's calls, in any order.
use ott_quic.Common.{ℕ, zero, suc, inl, replicate, refl, Bool, true, List}
use ott_quic.Packet.{Packet}
use ott_quic.Engine.State.{Engine, Env}
use ott_quic.Engine.Api.{
  send, get_connection, send_to_connection, close_connection, set_state_handler,
  set_stream_data_handler, set_recv_timeout, init, blank, stop, zero_entry,
}
use ott_quic.Engine.Loop.{on_datagram, on_timeout}
use ott_quic.Engine.Invariant.{EngineInv, Distinct}
use ott_quic.Engine.Preserve.{send-EngineInv, get_connection-EngineInv}
use ott_quic.Engine.Rounds.{
  close_connection-EngineInv, send_to_connection-EngineInv, on_datagram-EngineInv,
  on_timeout-EngineInv,
}

-- One whole call, or one whole round of the thread, with what the system answers: that these do not
-- overlap is an assumption.
pub data Step : Engine → Engine → Type 0 where
  datagram :
      (env : Env) (engine : Engine) (bytes : List ℕ) (addr : ℕ)
      → Step engine (on_datagram env engine bytes addr).0
  timeout : (env : Env) (engine : Engine) → Step engine (on_timeout env engine).0
  sends :
      (env : Env) (engine : Engine) (packet : Packet) (addr : ℕ)
      → Step engine (send env engine packet addr).1
  looks : (now : ℕ) (engine : Engine) (id : ℕ) → Step engine (get_connection now engine id).1
  sends_to :
      (env : Env) (engine : Engine) (packet : Packet)
      → Step engine (send_to_connection env engine packet).1
  closes : (env : Env) (engine : Engine) (id : ℕ) → Step engine (close_connection env engine id).1
  sets_state : (engine : Engine) (given : Bool) → Step engine (set_state_handler engine given)
  sets_stream :
      (engine : Engine) (given : Bool) → Step engine (set_stream_data_handler engine given)
  sets_timeout : (engine : Engine) (seconds : ℕ) → Step engine (set_recv_timeout engine seconds)
  stops : (engine : Engine) → Step engine (stop engine)

-- The engines that a successful `quic_engine_init` and any steps lead to.
pub data Reachable : Engine → Type 0 where
  started : (port : ℕ) (handler : Bool) → Reachable (init true true port handler).1
  stepped : {engine engine' : Engine} → Reachable engine → Step engine engine' → Reachable engine'

zero_entry-Distinct : (n : ℕ) → Distinct (replicate n zero_entry)
zero_entry-Distinct zero = tt
zero_entry-Distinct (suc n) = (inl refl, zero_entry-Distinct n)

pub blank-EngineInv : (port : ℕ) (handler : Bool) → EngineInv (init true true port handler).1
unfolding init blank
blank-EngineInv port handler = record {
  table = record { size = refl; states = search; distinct = zero_entry-Distinct 32 };
  waiting = record { size = refl; retrying = search };
}

-- One step keeps the invariant.
Step-EngineInv :
    (engine engine' : Engine) → Step engine engine' → EngineInv engine → EngineInv engine'
unfolding set_state_handler set_stream_data_handler set_recv_timeout stop
Step-EngineInv engine engine' (datagram env _ bytes addr) inv =
    on_datagram-EngineInv env engine bytes addr inv
Step-EngineInv engine engine' (timeout env _) inv = on_timeout-EngineInv env engine inv
Step-EngineInv engine engine' (sends env _ packet addr) inv =
    send-EngineInv env engine packet addr inv
Step-EngineInv engine engine' (looks now _ id) inv = get_connection-EngineInv now engine id inv
Step-EngineInv engine engine' (sends_to env _ packet) inv =
    send_to_connection-EngineInv env engine packet inv
Step-EngineInv engine engine' (closes env _ id) inv = close_connection-EngineInv env engine id inv
Step-EngineInv engine engine' (sets_state _ given) inv = record {
  table = inv.table;
  waiting = inv.waiting;
}
Step-EngineInv engine engine' (sets_stream _ given) inv = record {
  table = inv.table;
  waiting = inv.waiting;
}
Step-EngineInv engine engine' (sets_timeout _ seconds) inv = record {
  table = inv.table;
  waiting = inv.waiting;
}
Step-EngineInv engine engine' (stops _) inv = record { table = inv.table; waiting = inv.waiting }

-- In every engine that is reachable from `quic_engine_init` by datagrams, timeouts and calls that do
-- not overlap in time, in any order and with any answers of the system, the two tables have 32 and 64 slots, an entry in use is
-- of a connection that is connecting or connected, no two entries in use are of one connection, and
-- a packet that waits for its acknowledgement was sent again less than 3 times.
pub reachable_lem : (engine : Engine) → Reachable engine → EngineInv engine
reachable_lem engine (started port handler) = blank-EngineInv port handler
reachable_lem engine (stepped {engine = before} r s) =
    Step-EngineInv before engine s (reachable_lem before r)
