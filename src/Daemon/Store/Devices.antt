-- ===== src/Daemon/Store/Devices.antt =====
-- The devices of store.rs.
pub mod Ops
pub mod Listing
