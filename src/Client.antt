-- ===== src/Client.antt =====
-- crates/omp-control-client: the client's replica of the agents.
pub mod Reducer
pub mod Reconnect
pub mod Connection
