-- ===== src/Engine.antt =====
-- src/server/quic.c: the engine, its connection table, its table of packets to acknowledge and the
-- handling of a datagram.
pub mod State
pub mod Pending
pub mod Table
pub mod Process
pub mod Api
pub mod Loop
pub mod Invariant
pub mod Tables
pub mod Slots
pub mod Preserve
pub mod Rounds
pub mod Reach
pub mod Retransmit
pub mod Close
pub mod Cleanup
mod Tests
