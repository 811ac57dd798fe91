-- ===== src/Client/Connection.antt =====
-- crates/omp-control-client/src/client.rs: the connection task of the client, with its table of
-- requests.
pub mod Types
pub mod Pending
pub mod Frames
pub mod Session
pub mod Handle
pub mod Backoff
pub mod Answers
pub mod Handshake
