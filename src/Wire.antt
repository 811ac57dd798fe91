-- ===== src/Wire.antt =====
-- crates/omp-rpc: the protocol between the daemon and an agent's process.
pub mod Chunks
pub mod Reassembly
pub mod Bounds
