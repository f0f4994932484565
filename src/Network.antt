-- ===== src/Network.antt =====
-- crates/ne-supervisor/src/network.rs: the slots of the address pool.
pub mod Slots
pub mod Policy
pub mod Allocation
pub mod Examples
