-- ===== src/Capacity/Guards.antt =====
-- crates/ne-supervisor/src/capacity.rs: the guards that own a ledger entry. A guard is the id of the
-- entry that it owns, or `none` after it has given the entry up; each operation returns what is left
-- of its guard, and of the ledger. A lock that is poisoned is State's `locked`.
use ne_enclave.Common.{true, String, Option, none, some, Result, ok, err}
use ne_enclave.Protocol.Supervisor.{WorkspaceState}
use ne_enclave.Capacity.State.{
  CapacityError, CapacityState, CapacityEntryId, workspace, missing_entry,
}
use ne_enclave.Capacity.Admission.{
  register_entry, set_entry_state, ready_entry, adopt_entry, release_locked,
}

abbrev pub Guard : Type 0
Guard = Option CapacityEntryId

-- What an operation that may hand the entry on gives: the new guard or an error, the old guard, and
-- the ledger.
abbrev pub Handed : Type 0
Handed = Result CapacityError Guard × Guard × CapacityState

-- On success `self.entry_id = None`, and the new guard owns `new_id`.
abbrev pub hand_over :
    CapacityEntryId → CapacityEntryId → Result CapacityError (Unit {0}) × CapacityState → Handed
hand_over old_id new_id (ok _, s) = (ok (some new_id), none, s)
hand_over old_id new_id (err e, s) = (err e, some old_id, s)

-- `WorkspaceCapacityReservation::register_in_place`.
unfoldable pub register_in_place : Guard → WorkspaceState → CapacityState → Handed
register_in_place none state s = (err missing_entry, none, s)
register_in_place (some k) state s = hand_over k k (register_entry k state s)

-- `RegisteredWorkspaceCapacityGuard::set_state`.
unfoldable pub set_guard_state :
    Guard → WorkspaceState → CapacityState → Result CapacityError (Unit {0}) × CapacityState
set_guard_state none state s = (err missing_entry, s)
set_guard_state (some k) state s = set_entry_state k state s

-- `PoolCapacityReservation::ready_in_place`.
unfoldable pub ready_in_place : Guard → CapacityState → Handed
ready_in_place none s = (err missing_entry, none, s)
ready_in_place (some k) s = hand_over k k (ready_entry k s)

-- `ReadyPoolCapacityGuard::adopt_in_place`.
unfoldable pub adopt_in_place : Guard → String → WorkspaceState → CapacityState → Handed
adopt_in_place none workspace_id state s = (err missing_entry, none, s)
adopt_in_place (some k) workspace_id state s =
    hand_over k (workspace workspace_id) (adopt_entry k (workspace workspace_id) state s)

-- `release_entry`, the `Drop` of all four guards.
unfoldable pub release_entry : Guard → CapacityState → CapacityState
release_entry none s = s
release_entry (some k) s = (release_locked k s).1

-- `fault_ledger`, by which a guard's `fail_closed` stops the ledger.
unfoldable pub fault_ledger : CapacityState → CapacityState
fault_ledger s = record s { faulted = true }
