-- ===== src/Runtime.antt =====
-- The supervisor of a child process that speaks RPC over its pipes: crates/omp-runtime.
pub mod Types
pub mod Prompt
pub mod Ops
pub mod Loop
pub mod Lines
pub mod Reader
pub mod Answers
