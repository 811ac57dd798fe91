-- ===== src/Client/Connection/Answers.antt =====
-- The answers to the requests of the client in crates/omp-control-client/src/client.rs.
pub mod Table
pub mod Tracked
pub mod Steps
pub mod Commands
pub mod Sessions
pub mod Ends
pub mod Run
pub mod Requests
