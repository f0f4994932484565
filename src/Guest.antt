-- ===== src/Guest.antt =====
-- crates/ne-guest-agent/src/files.rs: what the agent in the guest accepts as a path.
pub mod Paths
pub mod Confinement
pub mod Examples
