-- ===== src/Lifecycle.antt =====
-- crates/ne-supervisor/src/workspace.rs: the bookkeeping that the workspace operations share, and the
-- checks that they make of a request.
pub mod Tasks
pub mod Draining
pub mod Claims
pub mod Exclusion
pub mod Nonces
pub mod Replay
pub mod Examples
