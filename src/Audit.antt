-- ===== src/Audit.antt =====
-- The signed audit log: crates/ne-protocol/src/audit.rs, its events and their verification, and
-- crates/ne-supervisor/src/audit.rs, the log itself.
pub mod Event
pub mod Verify
pub mod Chain
pub mod Acceptance
pub mod Pinning
pub mod Log
pub mod Lines
pub mod Appending
pub mod Emission
pub mod Recovery
pub mod Listing
pub mod Instance
pub mod Examples
