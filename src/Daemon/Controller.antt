-- ===== src/Daemon/Controller.antt =====
-- crates/ompd/src/controller.rs: what a client's request does to agents, processes and the store.
pub mod Action
pub mod Preserved
pub mod Types
pub mod Records
pub mod Calls
pub mod Lifecycle
pub mod Execute
pub mod Bridge
pub mod Alive
pub mod Lease
pub mod Resumed
