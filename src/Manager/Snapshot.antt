-- ===== src/Manager/Snapshot.antt =====
-- crates/ne-supervisor/src/workspace.rs: `snapshot_inner`, in the parts between which other tasks may
-- act: the mark under the registry's lock, the finalization under it, the publication of the artifact
-- and the hot swap of a live snapshot.
use ne_enclave.Common.{
  Bool, true, false, not, ◌&&◌, String, string_eq, none, some, Result, ok, err, raise, ◌>>=◌, ◌>>◌,
  ◌==◌, if◌then◌else◌,
}
use ne_enclave.Map.{lookup, insert, remove}
use ne_enclave.Protocol.Supervisor.{
  WorkspaceState, running, paused, snapshotting, workspace_state_eq,
}
use ne_enclave.Capacity.State.{CapacityError, CapacityState}
use ne_enclave.Capacity.Guards.{set_guard_state}
use ne_enclave.Pool.State.{Instance}
use ne_enclave.Manager.Boot.{
  RestoreAnswers, prepare_snapshot_restore, boot_prepared_snapshot, discard,
}
use ne_enclave.Manager.State.{
  WorkspaceManager, FirecrackerWorkspace, SupervisorErrorKind, Manages, fail_closed,
  workspace_not_found, internal, snapshot_failed, restore_failed,
}

-- `snapshot_preflight`: whether the configuration can be restored faithfully.
unfoldable pub snapshot_preflight : Bool → Bool → Bool
snapshot_preflight rootfs_read_only networked = rootfs_read_only && not networked

abbrev pub is_networked : Instance → Bool
is_networked instance = elim instance.network_slot [ none ↦ false | some slot ↦ true ]

-- A workspace in another state, in the registry and in the ledger, or the error of the ledger.
abbrev pub with_state : WorkspaceState → FirecrackerWorkspace → FirecrackerWorkspace
with_state state w = record w { instance = record (w.instance) { lifecycle_state = state } }

abbrev pub state_changed :
    {A : Type 0}
    → A
    → A
    → WorkspaceManager
    → String
    → FirecrackerWorkspace
    → WorkspaceState
    → Result CapacityError (Unit {0}) × CapacityState
    → A × WorkspaceManager
state_changed done refused m workspace_id w state (ok _, s) = (
  done,
  record m { capacity = s; instances = insert workspace_id (with_state state w) m.instances },
)
state_changed done refused m workspace_id w state (err e, s) = (refused, record m { capacity = s })

unfoldable pub set_workspace_state :
    {A : Type 0}
    → A
    → A
    → String
    → FirecrackerWorkspace
    → WorkspaceState
    → WorkspaceManager
    → A × WorkspaceManager
set_workspace_state done refused workspace_id w state m =
    state_changed done refused m workspace_id w state
      (set_guard_state w.capacity_guard state m.capacity)

-- What the mark captures: the id of the boot, and whether the workspace was running.
pub record Captured : Type 0 where
  pub boot_id : String
  pub was_running : Bool

-- The first part, under the registry's lock.
abbrev pub mark_workspace :
    Bool
    → String
    → FirecrackerWorkspace
    → WorkspaceManager
    → Result SupervisorErrorKind Captured × WorkspaceManager
mark_workspace live workspace_id w m =
    if w.instance.lifecycle_state == snapshotting
    then (err snapshot_failed, m)
    else if not (snapshot_preflight w.instance.rootfs_read_only (is_networked w.instance))
    then (err snapshot_failed, m)
    else if live && not (w.instance.lifecycle_state == running)
    then (err snapshot_failed, m)
    else set_workspace_state
        (ok (record {
          boot_id = w.instance.boot_id;
          was_running = w.instance.lifecycle_state == running;
        }))
        (err internal) workspace_id w snapshotting m

unfoldable pub mark : Bool → String → Manages Captured
unfolding snapshot_preflight set_workspace_state
mark live workspace_id m = elim (lookup workspace_id m.instances) [
  | none ↦ (err workspace_not_found, m)
  | some w ↦ mark_workspace live workspace_id w m
]

pub data SnapshotFinalize : Type 0 where
  set : WorkspaceState → SnapshotFinalize
  resume_in_place : SnapshotFinalize

-- `resumes` says whether the VM takes the resume.
abbrev pub next_state : Bool → SnapshotFinalize → WorkspaceState
next_state resumes (set state) = state
next_state true resume_in_place = running
next_state false resume_in_place = paused

-- `finalize_snapshot_state`.
unfoldable pub finalize_snapshot_state :
    Bool → String → String → SnapshotFinalize → WorkspaceManager → Bool × WorkspaceManager
unfolding set_workspace_state
finalize_snapshot_state resumes workspace_id boot_id action m =
    elim (lookup workspace_id m.instances) [
      | none ↦ (false, m)
      | some w ↦
          if not (w.instance.boot_id == boot_id)
          then (false, m)
          else set_workspace_state true false workspace_id w (next_state resumes action) m
    ]

-- The swap of `live_hot_swap` under the registry's lock: the old instance, or the kind of the error.
abbrev pub swapped : String → FirecrackerWorkspace → Instance → WorkspaceManager → WorkspaceManager
swapped source w instance m = record m {
  instances =
      insert source (record w { instance = record instance { workspace_id = source } })
        (remove source m.instances);
}

abbrev pub swap_state :
    String
    → FirecrackerWorkspace
    → Instance
    → WorkspaceManager
    → Result CapacityError (Unit {0}) × CapacityState
    → Result SupervisorErrorKind (Unit {0}) × WorkspaceManager
swap_state source w instance m (ok _, s) =
    (ok tt, swapped source w instance (record m { capacity = s }))
swap_state source w instance m (err e, s) = (
  err internal,
  record m { capacity = s; instances = insert source w (remove source m.instances) },
)

unfoldable pub swap_instance : String → String → Instance → Manages (Unit {0})
swap_instance source boot_id instance m = elim (lookup source m.instances) [
  | none ↦ (err workspace_not_found, m)
  | some w ↦
      if w.instance.boot_id == boot_id
      then swap_state source w instance m (set_guard_state w.capacity_guard running m.capacity)
      else (
        err workspace_not_found,
        record m { instances = insert source w (remove source m.instances) },
      )
]

-- What follows a swap: the new instance is discarded where it failed, and the old one reaped where it
-- succeeded.
abbrev pub after_swap :
    Bool
    → Bool
    → Result SupervisorErrorKind (Unit {0}) × WorkspaceManager
    → Result SupervisorErrorKind (Unit {0}) × WorkspaceManager
after_swap new_exits old_exits (ok _, m) =
    if old_exits then (ok tt, m) else (fail_closed >> raise internal) m
after_swap new_exits old_exits (err kind, m) = discard new_exits kind m

-- `live_hot_swap`; `old_exits` says whether the exit of the old process is confirmed.
unfoldable pub live_hot_swap :
    RestoreAnswers → Bool → String → String → String → String → Manages (Unit {0})
unfolding prepare_snapshot_restore swap_instance discard
live_hot_swap answers old_exits source boot_id snapshot_id provisional_id = do
  manifest ← prepare_snapshot_restore answers.verified snapshot_id provisional_id
  instance ← boot_prepared_snapshot answers provisional_id manifest
  if not answers.guest_ready then discard answers.exit_confirmed restore_failed else λ m.
      after_swap answers.exit_confirmed old_exits (swap_instance source boot_id instance m)
