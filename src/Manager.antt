-- ===== src/Manager.antt =====
-- crates/ne-supervisor/src/workspace.rs: the manager of a supervisor's workspaces, in the build
-- without the feature `confidential-cvm`.
pub mod State
pub mod Requests
pub mod Boot
pub mod Create
pub mod Checkout
pub mod Terminate
pub mod Snapshot
pub mod Ports
pub mod Soundness
pub mod Steps
pub mod Dropped
pub mod Changes
pub mod Swapping
pub mod Adoption
pub mod Keeping
pub mod Registration
pub mod Booting
pub mod Restoring
pub mod PoolHits
pub mod Creating
pub mod Ending
pub mod Snapshotting
pub mod Histories
pub mod SnapshotInner
pub mod Snapshots
pub mod Bounds
pub mod Removal
pub mod Examples
pub mod Registry
pub mod Registering
pub mod ColdBoot
pub mod Creation
