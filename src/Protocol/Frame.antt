-- ===== src/Protocol/Frame.antt =====
-- crates/omp-control-protocol/src/frame.rs: the frames of the control connection, and the checks of
-- a hello and of a request.
pub mod Types
pub mod Checks
pub mod Agreement
