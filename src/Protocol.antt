-- ===== src/Protocol.antt =====
-- crates/ne-protocol: the types that the components exchange, and their validation.
pub mod Profile
pub mod Supervisor
pub mod Fleet
pub mod Contracts
pub mod Poll
pub mod Replies
pub mod Acceptance
pub mod Examples
