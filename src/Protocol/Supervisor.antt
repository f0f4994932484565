-- ===== src/Protocol/Supervisor.antt =====
-- crates/ne-protocol/src/supervisor.rs: the state of a workspace.
use ne_enclave.Common.{Bool, true, false, ◌≡◌, ◌↔◌, arith, Eq}

pub data WorkspaceState : Type 0 where
  running paused snapshotting : WorkspaceState

-- The derived `PartialEq`.
abbrev pub same_state : WorkspaceState → WorkspaceState → Bool
same_state running running = true
same_state paused paused = true
same_state snapshotting snapshotting = true
same_state _ _ = false

pub same_state_iff : (a b : WorkspaceState) → (same_state a b ≡ true) ↔ (a ≡ b)
same_state_iff running running = ground arith
same_state_iff a b = ground arith

instance abbrev pub workspace_state_eq : Eq WorkspaceState
workspace_state_eq = record { beq = same_state; beq_iff = same_state_iff }
