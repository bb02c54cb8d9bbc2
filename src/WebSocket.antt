-- ===== src/WebSocket.antt =====
-- src/server/websocket.c: the socket, the frames, and the key of the opening handshake.
pub mod Io
pub mod Frame
pub mod Stream
pub mod RoundTrip
pub mod Sent
pub mod Sha1
pub mod Accept
pub mod Bounds
pub mod Digest
mod Tests
