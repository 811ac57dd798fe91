-- ===== src/Examples.antt =====
-- Runs of the models at concrete values.
pub mod Data
mod Messages
mod Runs
mod Stored
mod Chunked
mod Supervised
mod Connected
mod Registered
mod Controlled
mod Greeted
