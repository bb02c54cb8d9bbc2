-- ===== src/Server/Tests.antt =====
-- Executions of the server.
use ott_quic.Common.{ℕ, ◌≡◌, ◌↔◌, refl, true, false, [], length}
use ott_quic.Server.{
  Process, fresh, unstarted, ended, start, request_stop, accept_step, worker_step, joined, accepted,
  admit, spawn,
}
use ott_quic.Server.Count.{
  Run, initialised, configured, started, stopped, accepts, works, Counted, Run-Counted, joined_iff,
}

-- One client, whose TLS handshake fails, and then the end of the accept thread.
abbrev begun : Process
begun = record {
  server = record (fresh [] 8080 1) { listening = true; running = true };
  accepting = unstarted;
  workers = [];
}

abbrev ready : Process
ready = record begun { server = record (begun.server) { tls = true; ws_context = true } }

abbrev one_worker : Process
one_worker =
    let p1 = (start true ready).1 in
    let p2 = accept_step true true p1.accepting p1 in
    let p3 = accept_step true true p2.accepting p2 in accept_step true true p3.accepting p3

abbrev failed : Process
failed =
    let (server, workers) = worker_step false 0 one_worker.server one_worker.workers in
    record one_worker { server = server; workers = workers }

abbrev over : Process
over = let p = request_stop failed in accept_step false false p.accepting p

over-Run : Run 1 over
unfolding start accept_step request_stop worker_step accepted admit spawn
over-Run =
    accepts
      (stopped (
        works
          (accepts
            (accepts
              (accepts (started (configured (initialised [] 8080 0) true true) refl) true true) true
              true)
            true true)
          false 0))
      false false

Run-Counted_example : Counted 1 over
Run-Counted_example = Run-Counted 1 over over-Run

joined_iff_example :
    (joined over ≡ true)
    ↔ ((over.accepting ≡ ended) × (length over.workers ≡ 0) × (◌≡◌ {A = ℕ} 1 0))
joined_iff_example = joined_iff 1 over over-Run
