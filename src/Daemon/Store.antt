-- ===== src/Daemon/Store.antt =====
-- crates/ompd/src/persistence: the SQLite store. A table is the list of its rows, and a statement
-- the function on tables that its SQL describes. Of the errors of SQLite only the violation of a
-- constraint is modelled: no call fails for the disk or for a lock.
pub mod Types
pub mod Columns
pub mod Agents
pub mod Devices
pub mod Pairing
pub mod Operations
pub mod Access
pub mod Recovery
pub mod Opening
