-- ===== src/Protocol/State.antt =====
-- crates/omp-control-protocol/src/state.rs: the snapshot of an agent, its changes and its deltas.
-- Revisions and event sequences are u64 values below 2 ^ 64. The body of an event
-- (`omp_rpc::ServerMessage`), which this code only carries, is the type `M`.
mod Types
mod Change
mod Delta
pub mod WellFormed
pub mod Idempotent
pub mod Advance
unfoldable pub use Types.*
unfoldable pub use Change.*
unfoldable pub use Delta.*
