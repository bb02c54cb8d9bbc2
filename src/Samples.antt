-- ===== src/Samples.antt =====
-- Sockets and tables that the tests of several parts run on.
pub mod Wire
pub mod Tables
