-- ===== src/Protocol.antt =====
-- crates/omp-control-protocol: the identifiers, the replicated agent state and its deltas, the
-- hello negotiation, the request checks and the frame codec.
pub mod Id
pub mod State
pub mod Frame
pub mod Codec
