-- ===== src/Scaler/Spread.antt =====
-- The spread scaler of components: crates/wadm/src/scaler/spreadscaler/mod.rs.
pub mod Weights
pub mod Hosts
pub mod Conflicts
pub mod Reconcile
pub mod Operations
