-- ===== src/Runtime/Answers.antt =====
-- The answers to the requests of the actor in crates/omp-runtime/src/runtime.rs.
pub mod Pending
pub mod Tracked
pub mod Steps
pub mod Once
