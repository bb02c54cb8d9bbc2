-- ===== src/Lib.antt =====
-- OTT_QUIC: a streaming server in C. Browsers speak WebSocket to it and to its media over a small
-- QUIC-like protocol on UDP; sessions and videos stand in SQLite.
--
-- The parts that are modelled, and where:
--
-- - Stream.antt and its children: src/server/quic_stream.c. The streams of one connection as sixteen
--   slots; `on_data` is quic_stream_on_data, `insert_segment` and `consume_segments` are the static
--   functions of these names. The chain of segments is a list, a failing malloc a Boolean argument.
-- - Packet.antt: quic_packet_serialize and quic_packet_deserialize of src/server/quic.c, with the words
--   in the little-endian branch of the conditional compilation.
-- - Engine.antt: the rest of src/server/quic.c. Engine/State.antt holds the state of quic.h,
--   Engine/Pending.antt the packets that wait for an acknowledgement, Engine/Table.antt the connection
--   table, Engine/Process.antt quic_engine_process_packet, Engine/Api.antt the functions the server
--   calls, Engine/Loop.antt one round of the engine's thread. The clock, sendto and malloc are the
--   record `Env`; what the engine does to the outside is a list of events. The executions of
--   Engine/Reach.antt are those in which calls and rounds do not overlap: that is an assumption, as the
--   source holds the engine's lock only in parts of them.
-- - WebSocket.antt: of src/server/websocket.c the loops over the socket (Io), the frames (Frame), SHA-1
--   (Sha1), base 64 and the key of the opening handshake (Accept). The socket is the parameter
--   `Socket`; what a stream socket promises is the record `IsStream` of WebSocket/Stream.antt.
--   WebSocket/Digest.antt has the padded message of FIPS 180-4.
-- - Http.antt: src/server/http.c. `parse_request` is http_parse_request, with the parts of strtok_r and
--   sscanf that it uses as the functions `lines` and `scan_word`; Http/RoundTrip.antt writes a request
--   as RFC 9112 does.
-- - Session.antt: src/auth/session.c, and Session/Hash.antt src/auth/hash.c. The tables of
--   src/db/database.c and verify_password are the interface `Database` of Session/Login.antt.
-- - Database.antt: of src/db/database.c the table of the sessions, with the clock, and the look-up of a
--   user; Database/Sessions.antt fills the interface `Database` with it.
-- - Api.antt and its children: src/http/api.c. Api/Reply.antt holds the replies, Api/Json.antt the fields
--   of the bodies, Api/Account.antt, Api/Admin.antt and Api/Static.antt the handlers, Api/Handle.antt
--   http_api_handle. A handler returns its reply, the tables and what it did to files.
-- - Upload.antt: src/server/upload.c.
-- - Command.antt: the fields of the JSON commands and parse_command of src/server/websocket.c.
-- - Client.antt and its children: the rest of src/server/websocket.c. Client/Handshake.antt holds the
--   opening handshake, Client/Chunk.antt send_video_chunk, Client/Videos.antt, Client/Segments.antt and
--   Client/Watch.antt the commands, Client/Handle.antt handle_text_frame, Client/Serve.antt
--   websocket_handle_client. The state `World` is the connection, websocket_context_t with its engine,
--   and the tables.
-- - Server.antt: src/server/server.c. The accept thread and the workers take steps in any order, in the
--   executions `Run` of Server/Count.antt.
-- - Samples.antt: sockets and tables that the tests run on.
-- - Common.antt and Text.antt: lists, tests, bit operations and texts that the parts share.
--
-- How the parts meet: a round of the engine reads a datagram with `deserialize`, looks its connection up
-- in the table, hands the payload to the connection's streams with `on_data`, and acknowledges it with
-- `serialize`. The WebSocket side sends on a connection with `send_to_connection`. A worker of the
-- server reads a request with `parse_request`, and either opens a WebSocket, whose frames go through
-- `read_frame`, `parse_command` and `handle_command`, or gives the request to `api_handle`.
--
-- Numbers are natural numbers; the wrap-around of uint32_t and uint64_t is written out, an int is its
-- 32 bits, and an address is a number. A text has no closing NUL. Loops over arrays and lists are
-- structural recursion. The other loops have a bound on their rounds: `read_loop`, `write_loop` and
-- their twins of the REST API get one round for each byte, since a round moves at least one;
-- `request_loop` one for each byte of its buffer; `cookie_loop` and `part_loop` one for each character;
-- `chunk_loop` one more than the bytes of the file that are left. `serve_loop` handles the frames that a
-- list of answers of the system is given for.
--
-- Not modelled: the thread and lock of the engine, the calls of sockets, files and OpenSSL themselves,
-- the other tables of src/db/database.c, signals, thumbnails, the vendored bcrypt, and the programs with their options. A
-- command of a client is one step, also where the source takes the lock twice. Null pointers are not
-- modelled.
pub mod Common
pub mod Stream
pub mod Packet
pub mod Engine
pub mod WebSocket
pub mod Text
pub mod Session
pub mod Database
pub mod Command
pub mod Http
pub mod Server
pub mod Api
pub mod Upload
pub mod Client
pub mod Samples
