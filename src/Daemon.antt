-- ===== src/Daemon.antt =====
-- crates/ompd: what the daemon sends of an agent, what it stores, and whom it lets do what.
pub mod Emit
pub mod Store
pub mod Controller
pub mod Greeting
pub mod Outbound
pub mod Requests
