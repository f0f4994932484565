-- ===== src/Pool.antt =====
-- crates/ne-supervisor/src/pool.rs: the warm pool of one tier, instances that are booted before a
-- workspace asks for one.
pub mod State
pub mod Refill
pub mod Interleaving
pub mod Permits
pub mod Bounds
pub mod Histories
pub mod Examples
