-- ===== src/Server/Count.antt =====
-- What `client_count` counts, in every interleaving of the threads.
use ott_quic.Common.{
  ℕ, zero, suc, ◌+◌, ◌≤◌, ◌≡◌, ◌↔◌, refl, Bool, true, ◌&&◌, List, [], ◌∷◌, ltb, ltb→lt,
  if◌then◌else◌, length, Bool-cases, inl, inr, arith,
}
use ott_quic.Text.{Text}
use ott_quic.Server.{
  Server, AcceptThread, unstarted, waiting, asking, refusing, counted, giving_back, ended, Worker,
  handshaking, serving, leaving, Process, fresh, start, request_stop, accept_step, accepted, admit,
  spawn, give_back, worker_step, leave, joined, joined_at,
}

-- A failed TLS handshake: the worker at the index is in one, and the answer is no.
abbrev pub fails : Bool → ℕ → List Worker → ℕ
fails answer i [] = 0
fails answer zero (handshaking ∷ workers) = if answer then 0 else 1
fails answer zero (_ ∷ workers) = 0
fails answer (suc i) (w ∷ workers) = fails answer i workers

-- The executions after `server_init`, with the number of TLS handshakes that have failed: steps of
-- the accept thread and of the workers in any order and with any answers of the system, and the
-- calls of main.
pub data Run : ℕ → Process → Type 0 where
  initialised :
      (ip : Text) (port max_clients : ℕ)
      → Run 0 (record {
        server = record (fresh ip port (suc max_clients)) { listening = true; running = true };
        accepting = unstarted;
        workers = [];
      })
  configured :
      {n : ℕ} {p : Process}
      → Run n p
      → (tls ws : Bool)
      → Run n (record p { server = record (p.server) { tls = tls; ws_context = ws } })
  started : {n : ℕ} {p : Process} → Run n p → p.accepting ≡ unstarted → Run n (start true p).1
  stopped : {n : ℕ} {p : Process} → Run n p → Run n (request_stop p)
  accepts :
      {n : ℕ} {p : Process}
      → Run n p
      → (answer created : Bool) → Run n (accept_step answer created p.accepting p)
  works :
      {n : ℕ} {p : Process}
      → Run n p
      → (answer : Bool) (i : ℕ)
      → Run (n + fails answer i p.workers) (
          let (server, workers) = worker_step answer i p.server p.workers in
          record p { server = server; workers = workers })

-- The accept thread holds a place for a client that no worker has yet.
abbrev pub held : AcceptThread → ℕ
held counted = 1
held giving_back = 1
held _ = 0

-- Every place that is counted is held by the accept thread, by a worker, or by a failed handshake.
pub record Counted (n : ℕ) (p : Process) : Type 0 where
  pub count_eq : p.server.client_count ≡ held p.accepting + length p.workers + n
  pub room : p.server.client_count ≤ p.server.max_clients

module _ (n : ℕ) (p : Process) (h : Counted n p) where
  accepted-Counted : (answer : Bool) → p.accepting ≡ waiting → Counted n (accepted answer p)
  unfolding accepted
  accepted-Counted answer e =
      let none_held : held p.accepting ≡ 0 = rw e refl in
      let count = h.count_eq in
      let room = h.room in
      elim (Bool-cases (answer && p.server.listening)) [
        | inl c ↦ rw (c, accepted) (record { count_eq = omega arith; room = room })
        | inr c ↦
            rw (c, accepted)
              (elim (Bool-cases p.server.running) [
                | inl r ↦ record { count_eq = rw r (omega arith); room = room }
                | inr r ↦ record { count_eq = rw r (omega arith); room = room }
              ])
      ]

  admit-Counted : p.accepting ≡ asking → Counted n (admit p)
  unfolding admit
  admit-Counted e =
      let none_held : held p.accepting ≡ 0 = rw e refl in
      let count = h.count_eq in
      elim (Bool-cases (ltb p.server.client_count p.server.max_clients)) [
        | inl c ↦
            let lt = ltb→lt _ _ c in
            rw (c, admit) (record { count_eq = omega arith; room = omega arith })
        | inr c ↦ rw (c, admit) (record { count_eq = omega arith; room = h.room })
      ]

  spawn-Counted :
      (allocated created : Bool) → p.accepting ≡ counted → Counted n (spawn allocated created p)
  unfolding spawn
  spawn-Counted allocated created e =
      let one_held : held p.accepting ≡ 1 = rw e refl in
      let count = h.count_eq in
      elim (Bool-cases (allocated && created)) [
        | inl c ↦ rw (c, spawn) (record { count_eq = omega arith; room = h.room })
        | inr c ↦ rw (c, spawn) (record { count_eq = omega arith; room = h.room })
      ]

  give_back-Counted : p.accepting ≡ giving_back → Counted n (give_back p)
  unfolding give_back
  give_back-Counted e =
      let one_held : held p.accepting ≡ 1 = rw e refl in
      let count = h.count_eq in
      let room = h.room in record { count_eq = omega arith; room = omega arith }

  accept_step-Counted :
      (answer created : Bool) (at : AcceptThread)
      → p.accepting ≡ at
      → Counted n (accept_step answer created at p)
  unfolding accept_step
  accept_step-Counted answer created unstarted e = h
  accept_step-Counted answer created waiting e = accepted-Counted answer e
  accept_step-Counted answer created asking e = admit-Counted e
  accept_step-Counted answer created refusing e =
      let none_held : held p.accepting ≡ 0 = rw e refl in
      let count = h.count_eq in record { count_eq = omega arith; room = h.room }
  accept_step-Counted answer created counted e = spawn-Counted answer created e
  accept_step-Counted answer created giving_back e = give_back-Counted e
  accept_step-Counted answer created ended e = h

worker_step-count :
    (answer : Bool) (i : ℕ) (server : Server) (workers : List Worker)
    → length workers ≤ server.client_count
    → let (server', workers') = worker_step answer i server workers in
      (server'.client_count + length workers
        ≡ server.client_count + length workers' + fails answer i workers)
      × (server'.max_clients ≡ server.max_clients)
      × (server'.client_count ≤ server.client_count)
unfolding worker_step leave
worker_step-count answer i server [] h = (omega arith, refl, omega arith)
worker_step-count answer zero server (handshaking ∷ workers) h = ground arith
worker_step-count answer zero server (serving ∷ workers) h = (omega arith, refl, omega arith)
worker_step-count answer zero server (leaving ∷ workers) h = ground arith
worker_step-count answer (suc i) server (w ∷ workers) h =
    let (count, same, less) = worker_step-count answer i server workers (omega arith) in
    (omega arith, same, less)

-- In every interleaving of the accept thread, the workers and the calls of main, `client_count` is
-- the number of workers, plus one while the accept thread holds a place, plus the number of TLS
-- handshakes that have failed so far; and it is at most `max_clients`.
pub Run-Counted : (n : ℕ) (p : Process) → Run n p → Counted n p
unfolding start request_stop
Run-Counted _ _ (initialised ip port max_clients) = record { count_eq = refl; room = omega arith }
Run-Counted n _ (configured r tls ws) =
    let h = Run-Counted n _ r in record { count_eq = h.count_eq; room = h.room }
Run-Counted n _ (started {p = p} r e) =
    let h = Run-Counted n p r in
    let none_held : held p.accepting ≡ 0 = rw e refl in
    let count = h.count_eq in
    elim (Bool-cases p.server.listening) [
      | inl l ↦ rw (l, start) (record { count_eq = omega arith; room = h.room })
      | inr l ↦ rw (l, start) (record { count_eq = count; room = h.room })
    ]
Run-Counted n _ (stopped r) =
    let h = Run-Counted n _ r in record { count_eq = h.count_eq; room = h.room }
Run-Counted n _ (accepts {p = p} r answer created) =
    accept_step-Counted n p (Run-Counted n p r) answer created p.accepting refl
Run-Counted _ _ (works {n = m} {p = p} r answer i) =
    let h = Run-Counted m p r in
    let count = h.count_eq in
    let room = h.room in
    let (sum, same, less) = worker_step-count answer i p.server p.workers (omega arith) in
    record { count_eq = omega arith; room = omega arith }

joined_at_iff :
    (at : AcceptThread) (count workers n : ℕ)
    → count ≡ held at + workers + n
    → (joined_at at count ≡ true) ↔ ((at ≡ ended) × (workers ≡ 0) × (n ≡ 0))
unfolding joined_at
joined_at_iff unstarted count workers n e = ground arith
joined_at_iff waiting count workers n e = ground arith
joined_at_iff asking count workers n e = ground arith
joined_at_iff refusing count workers n e = ground arith
joined_at_iff counted count workers n e = ground arith
joined_at_iff giving_back count workers n e = ground arith
joined_at_iff ended count workers n e = ground arith

-- `server_join` returns exactly when the accept thread has ended, no worker is left, and no TLS
-- handshake has ever failed: after one failure it does not return any more.
pub joined_iff :
    (n : ℕ) (p : Process)
    → Run n p
    → (joined p ≡ true) ↔ ((p.accepting ≡ ended) × (length p.workers ≡ 0) × (n ≡ 0))
unfolding joined
joined_iff n p r = joined_at_iff p.accepting _ _ n (Run-Counted n p r).count_eq
