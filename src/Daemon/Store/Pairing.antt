-- ===== src/Daemon/Store/Pairing.antt =====
-- The pairing secrets of store.rs.
pub mod Ops
