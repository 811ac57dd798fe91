-- ===== src/Daemon/Store/Operations.antt =====
-- The operations of store.rs, which are claimed, completed and recovered.
pub mod Table
pub mod Delete
pub mod Prune
pub mod Ops
pub mod Once
pub mod Outcome
