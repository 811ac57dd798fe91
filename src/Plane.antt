-- ===== src/Plane.antt =====
-- crates/omp-control-plane: the actor that owns an agent's state and its subscribers.
pub mod Mpsc
pub mod Actor
pub mod Registry
pub mod Handle
