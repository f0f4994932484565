-- ===== src/Manager/Boot.antt =====
-- crates/ne-supervisor/src/workspace.rs: how a workspace is restored from a snapshot, shared by the
-- restore, the fork and the fallback of the warm pool. What the host answers is given: the verified
-- manifest's dimensions, whether the restore, the guest and the reset of its identity succeed, and
-- whether the exit of a process that has to go is confirmed.
use ne_enclave.Common.{
  ℕ, Bool, true, String, none, some, Result, ok, err, pure, raise, ◌>>=◌, ◌>>◌, ltb, not,
  if◌then◌else◌,
}
use ne_enclave.Text.{codes}
use ne_enclave.Protocol.Supervisor.{running}
use ne_enclave.Audit.Event.{command_failed, workspace_restored, workspace_forked}
use ne_enclave.Capacity.Guards.{Guard}
use ne_enclave.Pool.State.{Instance}
use ne_enclave.Manager.Requests.{is_valid_workspace_id, ImageError, image_error_kind}
use ne_enclave.Manager.State.{
  WorkspaceManager, SupervisorErrorKind, Manages, audit_emit, drop_guard, fail_closed, claim_boot,
  with_lease, reserve_workspace_capacity, register_pending_firecracker, reserved, invalid_request,
  invalid_snapshot, internal, fork_failed,
}

-- What verifying a snapshot gives: the dimensions that its signed manifest states.
pub record SnapshotDimensions : Type 0 where
  pub vcpu_count : ℕ
  pub mem_size_mib : ℕ

pub data SnapshotRestoreError : Type 0 where
  artifact : SnapshotRestoreError
  image : ImageError → SnapshotRestoreError

abbrev pub snapshot_error_kind : SnapshotRestoreError → SupervisorErrorKind
snapshot_error_kind artifact = invalid_snapshot
snapshot_error_kind (image e) = image_error_kind e

abbrev pub Verified : Type 0
Verified = Result SnapshotRestoreError SnapshotDimensions

-- `prepare_snapshot_restore`.
unfoldable pub prepare_snapshot_restore : Verified → String → String → Manages SnapshotDimensions
prepare_snapshot_restore verified snapshot_id new_workspace_id m =
    if not (is_valid_workspace_id (codes snapshot_id))
    then (err invalid_request, m)
    else if not (is_valid_workspace_id (codes new_workspace_id))
    then (err invalid_request, m)
    else elim verified [
      | err e ↦ (err (snapshot_error_kind e), m)
      | ok manifest ↦
          if ltb m.max_workspace_mem_mib manifest.mem_size_mib
          then (err invalid_request, m)
          else (ok manifest, m)
    ]

-- `firecracker::restore`: the instance of a boot, with the id of the boot, or the kind of its error.
abbrev pub restored_instance : String → SnapshotDimensions → String → Instance
restored_instance workspace_id manifest boot_id = record {
  workspace_id = workspace_id;
  boot_id = boot_id;
  lifecycle_state = running;
  network_slot = none;
  vcpu_count = manifest.vcpu_count;
  mem_size_mib = manifest.mem_size_mib;
  rootfs_read_only = true;
}

pub record RestoreAnswers : Type 0 where
  pub verified : Verified
  pub restore : Result SupervisorErrorKind String
  pub guest_ready : Bool
  pub entropy : Bool
  pub identity_reset : Bool
  pub exit_confirmed : Bool

-- `boot_prepared_snapshot`.
abbrev pub boot_prepared_snapshot : RestoreAnswers → String → SnapshotDimensions → Manages Instance
boot_prepared_snapshot answers workspace_id manifest m = elim answers.restore [
  | err kind ↦ (err kind, m)
  | ok boot_id ↦ (ok (restored_instance workspace_id manifest boot_id), m)
]

-- `terminate_unregistered_or_fault`, and the error that follows it.
unfoldable pub discard : {A : Type 0} → Bool → SupervisorErrorKind → Manages A
discard exit_confirmed kind = if exit_confirmed then raise kind else (fail_closed >> raise internal)

-- `boot_prepared_ready_reset`.
unfoldable pub boot_prepared_ready_reset :
    RestoreAnswers → String → SnapshotDimensions → Manages Instance
unfolding discard
boot_prepared_ready_reset answers workspace_id manifest = do
  instance ← boot_prepared_snapshot answers workspace_id manifest
  if not answers.guest_ready
      then discard answers.exit_confirmed fork_failed
      else if not answers.entropy
      then discard answers.exit_confirmed internal
      else if not answers.identity_reset
      then discard answers.exit_confirmed fork_failed
      else pure instance

-- `boot_with_reserved_capacity`: an error of the boot drops the reservation.
abbrev pub keep_reservation :
    {A : Type 0}
    → Guard
    → Result SupervisorErrorKind A × WorkspaceManager
    → Result SupervisorErrorKind (A × Guard) × WorkspaceManager
keep_reservation guard (ok a, m) = (ok (a, guard), m)
keep_reservation guard (err kind, m) = (err kind, (drop_guard guard m).1)

unfoldable pub boot_with_reserved_capacity :
    {A : Type 0} → String → SnapshotDimensions → Manages A → Manages (A × Guard)
unfolding reserve_workspace_capacity
boot_with_reserved_capacity workspace_id manifest boot = do
  guard ← reserve_workspace_capacity workspace_id manifest.vcpu_count manifest.mem_size_mib
  λ m. keep_reservation guard (boot m)

-- Code whose error is written to the audit log before it is returned.
abbrev pub audited :
    {A : Type 0}
    → String
    → Result SupervisorErrorKind A × WorkspaceManager
    → Result SupervisorErrorKind A × WorkspaceManager
audited workspace_id (ok a, m) = (ok a, m)
audited workspace_id (err kind, m) = (err kind, (audit_emit command_failed (some workspace_id) m).1)

abbrev pub audit_failure : {A : Type 0} → String → Manages A → Manages A
audit_failure workspace_id body m = audited workspace_id (body m)

-- `restore_inner`.
unfoldable pub restore_inner : RestoreAnswers → String → String → Manages Instance
unfolding claim_boot prepare_snapshot_restore boot_with_reserved_capacity
    register_pending_firecracker
restore_inner answers snapshot_id new_workspace_id =
    claim_boot new_workspace_id
    >> with_lease new_workspace_id (do
      manifest ←
          audit_failure new_workspace_id
            (prepare_snapshot_restore answers.verified snapshot_id new_workspace_id)
      booted ←
          boot_with_reserved_capacity new_workspace_id manifest
            (boot_prepared_snapshot answers new_workspace_id manifest)
      register_pending_firecracker answers.exit_confirmed new_workspace_id booted.0
          (reserved booted.1)
      audit_emit workspace_restored (some new_workspace_id)
      pure booted.0)

-- `fork_inner`.
unfoldable pub fork_inner : RestoreAnswers → String → String → Manages Instance
unfolding claim_boot prepare_snapshot_restore boot_with_reserved_capacity boot_prepared_ready_reset
    register_pending_firecracker
fork_inner answers snapshot_id new_workspace_id =
    claim_boot new_workspace_id
    >> with_lease new_workspace_id (do
      manifest ←
          audit_failure new_workspace_id
            (prepare_snapshot_restore answers.verified snapshot_id new_workspace_id)
      booted ← audit_failure new_workspace_id (
          boot_with_reserved_capacity new_workspace_id manifest
            (boot_prepared_ready_reset answers new_workspace_id manifest))
      register_pending_firecracker answers.exit_confirmed new_workspace_id booted.0
          (reserved booted.1)
      audit_emit workspace_forked (some new_workspace_id)
      pure booted.0)
