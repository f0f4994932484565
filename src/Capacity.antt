-- ===== src/Capacity.antt =====
-- crates/ne-supervisor/src/capacity.rs: the ledger of the workspaces and pool members that one
-- supervisor has admitted.
pub mod State
pub mod Admission
pub mod Edits
pub mod Rules
pub mod Refinement
pub mod Inventory
pub mod Totals
pub mod Reports
pub mod Invariant
pub mod Batch
pub mod History
pub mod Guards
pub mod Dropping
pub mod Ownership
pub mod Adoption
pub mod Stepping
pub mod Steps
pub mod Examples
