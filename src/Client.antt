-- ===== src/Client.antt =====
-- src/server/websocket.c: the opening handshake, the handlers of the commands, and the loop over the
-- frames of a client.
pub mod Library
pub mod Chunk
pub mod Videos
pub mod Segments
pub mod Watch
pub mod Handle
pub mod Handshake
pub mod Serve
pub mod Quiet
pub mod Keeps
pub mod Pong
pub mod Slices
pub mod Reply
mod Tests
