-- ===== src/Plane/Actor.antt =====
-- crates/omp-control-plane/src/actor.rs: the actor of one agent.
pub mod Types
pub mod Log
pub mod Ops
pub mod Loop
pub mod Sequence
pub mod History
pub mod Reachable
pub mod Replay
pub mod Catchup
pub mod Change
pub mod Lease
