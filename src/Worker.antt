-- ===== src/Worker.antt =====
-- The event worker: crates/wadm/src/workers/event.rs. A handler brings the state of the lattice up
-- to date with one event; it fails where an operation of the store does.
pub mod Components
pub mod Providers
pub mod Hosts
pub mod Heartbeat
pub mod State
pub mod Effects
pub mod Consistency
pub mod Promises
pub mod Scalers
