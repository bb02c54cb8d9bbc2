-- ===== src/Server.antt =====
-- src/server/server.c: the accept thread, the workers, and the functions that main calls. What the
-- system answers (socket, bind, accept, malloc, pthread_create, OpenSSL) is an argument.
pub mod Count
mod Tests
use ott_quic.Common.{
  ℕ, zero, suc, ◌+◌, ◌-◌, Bool, true, false, ◌&&◌, not, List, [], ◌∷◌, ◌++◌, ltb, ◌==◌,
  if◌then◌else◌,
}
use ott_quic.Text.{Text, cut}

-- `server_ctx_t` without its locks: `listening` says whether `listen_fd` is open, and `ws_context`
-- and `tls` whether these pointers are set. `client_count` never goes below 0.
pub record Server : Type 0 where
  pub listening : Bool
  pub running : Bool
  pub client_count : ℕ
  pub max_clients : ℕ
  pub port : ℕ
  pub bind_ip : Text
  pub ws_context : Bool
  pub tls : Bool

-- After `memset`, and the assignments before `socket`.
abbrev pub fresh : Text → ℕ → ℕ → Server
fresh ip port max_clients = record {
  listening = false;
  running = false;
  client_count = 0;
  max_clients = max_clients;
  port = port;
  bind_ip = cut 16 ip;
  ws_context = false;
  tls = false;
}

-- `server_init`, from the test of its arguments on: whether it succeeds, and the context. The
-- arguments are the results of `socket`, `setsockopt`, `inet_pton`, `bind` and `listen`; a failure
-- after `socket` closes the socket again.
unfoldable pub init : Bool → Bool → Bool → Bool → Bool → Server → Text → ℕ → ℕ → Bool × Server
init opened reused parsed bound listens old ip port max_clients =
    if max_clients == 0
    then (false, old)
    else if opened && (reused && (parsed && (bound && listens)))
    then (true, record (fresh ip port max_clients) { listening = true; running = true })
    else (false, fresh ip port max_clients)

-- `server_enable_tls`: the results of `SSL_CTX_new` and of the four calls after it. The context is
-- freed after a failure of these.
unfoldable pub enable_tls : Bool → Bool → Bool → Bool → Bool → Server → Bool × Server
enable_tls created version certificate key matches server =
    let ok = created && (version && (certificate && (key && matches))) in
    (ok, record server { tls = ok })

-- `server_set_websocket_context`.
unfoldable pub set_websocket_context : Server → Bool → Server
set_websocket_context server given = record server { ws_context = given }

-- Where the accept thread stands: before its start, in `accept`, with a client that is not counted
-- yet, with one that is refused, with one that is counted, before giving its place back, and after
-- its end.
pub data AcceptThread : Type 0 where
  unstarted waiting asking refusing counted giving_back ended : AcceptThread

-- Where a worker stands: in the TLS handshake, in `websocket_handle_client`, and before the lock at
-- its end.
pub data Worker : Type 0 where
  handshaking serving leaving : Worker

-- The process: the context, its accept thread and its workers.
pub record Process : Type 0 where
  pub server : Server
  pub accepting : AcceptThread
  pub workers : List Worker

-- `server_start`: the result of `pthread_create`.
unfoldable pub start : Bool → Process → Bool × Process
start created p =
    if p.server.listening && created then (true, record p { accepting = waiting }) else (false, p)

-- `server_request_stop`.
unfoldable pub request_stop : Process → Process
request_stop p = record p { server = record (p.server) { running = false; listening = false } }

-- `server_destroy`: `memset` of the context.
unfoldable pub destroy : Process → Process
destroy p = record p { server = fresh [] 0 0 }

-- `accept` returns, with a client or not; on a closed socket it fails.
unfoldable pub accepted : Bool → Process → Process
accepted client p =
    if client && p.server.listening
    then record p { accepting = asking }
    else record p { accepting = if p.server.running then waiting else ended }

-- The first critical section: a client is counted, if there is room.
unfoldable pub admit : Process → Process
admit p =
    if ltb p.server.client_count p.server.max_clients
    then record p {
      server = record (p.server) { client_count = p.server.client_count + 1 };
      accepting = counted;
    }
    else record p { accepting = refusing }

-- The results of `malloc` and `pthread_create`: a worker begins, with the TLS handshake if there is
-- a TLS context.
unfoldable pub spawn : Bool → Bool → Process → Process
spawn allocated created p =
    if allocated && created
    then record p {
      accepting = waiting;
      workers = (if p.server.tls then handshaking else serving) ∷ p.workers;
    }
    else record p { accepting = giving_back }

-- The critical sections after a failure.
unfoldable pub give_back : Process → Process
give_back p = record p {
  server = record (p.server) { client_count = p.server.client_count - 1 };
  accepting = waiting;
}

-- One step of the accept thread. The arguments answer its next call; a thread that has not started
-- or has ended takes none.
unfoldable pub accept_step : Bool → Bool → AcceptThread → Process → Process
unfolding accepted admit spawn give_back
accept_step answer created unstarted p = p
accept_step answer created waiting p = accepted answer p
accept_step answer created asking p = admit p
accept_step answer created refusing p = record p { accepting = waiting }
accept_step answer created counted p = spawn answer created p
accept_step answer created giving_back p = give_back p
accept_step answer created ended p = p

-- The critical section at the end of `client_worker`.
unfoldable pub leave : Server → Server
leave server =
    if ltb 0 server.client_count
    then record server { client_count = server.client_count - 1 }
    else server

-- One step of the worker at an index: the context, and the workers. `answer` is whether the TLS
-- handshake succeeds; if not, the worker jumps to `done`, behind the critical section.
unfoldable pub worker_step : Bool → ℕ → Server → List Worker → Server × List Worker
unfolding leave
worker_step answer i server [] = (server, [])
worker_step answer zero server (handshaking ∷ workers) =
    (server, if answer then serving ∷ workers else workers)
worker_step answer zero server (serving ∷ workers) = (server, leaving ∷ workers)
worker_step answer zero server (leaving ∷ workers) = (leave server, workers)
worker_step answer (suc i) server (w ∷ workers) =
    let (server', workers') = worker_step answer i server workers in (server', w ∷ workers')

-- `server_join` returns when the accept thread has ended and the count is 0.
unfoldable pub joined_at : AcceptThread → ℕ → Bool
joined_at ended count = count == 0
joined_at _ count = false

unfoldable pub joined : Process → Bool
unfolding joined_at
joined p = joined_at p.accepting p.server.client_count
