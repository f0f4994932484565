-- ===== src/Manager/Restoring.antt =====
-- `restore_inner`, `fork_inner` and the miss of the warm pool in crates/ne-supervisor/src/workspace.rs:
-- whatever the host answers, they leave the registry and the ledger in agreement.
use ne_enclave.Common.{Bool, String, string_eq, some, ◌>>=◌, ◌>>◌}
use ne_enclave.Protocol.Supervisor.{workspace_state_eq}
use ne_enclave.Capacity.State.{entry_eq, reserved}
use ne_enclave.Capacity.Guards.{Guard}
use ne_enclave.Lifecycle.Claims.{LifecycleClaims}
use ne_enclave.Pool.State.{Instance}
use ne_enclave.Audit.Event.{EventType, workspace_restored, workspace_forked}
use ne_enclave.Common.{pure}
use ne_enclave.Common.{bind_rule}
use ne_enclave.Manager.State.{
  WorkspaceManager, Manages, audit_emit, PendingOwner, register_pending_firecracker,
}
use ne_enclave.Manager.Soundness.{IsBooting}
use ne_enclave.Manager.Keeping.{Sound, Keeps, others-IsSound}
use ne_enclave.Manager.Registration.{register_reserved-Sound, claimed-Keeps}
use ne_enclave.Audit.Event.{workspace_created, pool_miss}
use ne_enclave.Manager.Boot.{
  SnapshotDimensions, prepare_snapshot_restore, RestoreAnswers, boot_prepared_snapshot,
  boot_prepared_ready_reset, boot_with_reserved_capacity, audit_failure, restore_inner, fork_inner,
}
use ne_enclave.Manager.Checkout.{pool_miss_path}
use ne_enclave.Manager.Booting.{
  IsFree, Free, Boots, prepared-Free, boot-Boots, audited-Boots, boot_prepared-Booting,
  ready_reset-Booting,
}

-- From the boot on: its registration, and the event.
abbrev pub finish : Bool → EventType → String → Instance × Guard → Manages Instance
finish exit_confirmed event id booted = do
  register_pending_firecracker exit_confirmed id booted.0 (PendingOwner.reserved booted.1)
  audit_emit event (some id)
  pure booted.0

module _ (claims : LifecycleClaims) (id : String) where
  finish-Sound :
      (exit_confirmed : Bool) (event : EventType) (booted : Instance × Guard) (m : WorkspaceManager)
      → IsBooting claims id booted.1 reserved m
      → Sound claims (finish exit_confirmed event id booted m)
  finish-Sound exit_confirmed event booted m v =
      bind_rule (Sound claims) (Sound claims) _ (λ a t u. others-IsSound claims _ _ _ _ u)
        (λ e t u. u)
        (register_pending_firecracker exit_confirmed id booted.0 (PendingOwner.reserved booted.1)) m
        (register_reserved-Sound claims id exit_confirmed booted.0 booted.1 m v)

  -- From the checks on.
  prepared-Sound :
      (boot : SnapshotDimensions → Manages (Instance × Guard))
      → ((manifest : SnapshotDimensions) (t : WorkspaceManager)
          → IsFree claims id t
          → Boots claims id (boot manifest t))
      → (answers : RestoreAnswers) (event : EventType) (snapshot_id : String) (m : WorkspaceManager)
      → IsFree claims id m
      → Sound claims (
          (audit_failure id (prepare_snapshot_restore answers.verified snapshot_id id)
              >>= λ manifest. boot manifest >>= finish answers.exit_confirmed event id)
            m)
  prepared-Sound boot boots answers event snapshot_id m free =
      bind_rule (Sound claims) (Free claims id) _
        (λ manifest t u.
          bind_rule (Sound claims) (Boots claims id) (finish answers.exit_confirmed event id)
            (λ booted s w. finish-Sound answers.exit_confirmed event booted s w) (λ e s w. w)
            (boot manifest) t (boots manifest t u))
        (λ e t u. u.sound)
        (audit_failure id (prepare_snapshot_restore answers.verified snapshot_id id)) m
        (prepared-Free claims id answers.verified snapshot_id m free)

  -- The boot of a fork, with the event of its failure.
  forked-Boots :
      (answers : RestoreAnswers) (manifest : SnapshotDimensions) (t : WorkspaceManager)
      → IsFree claims id t
      → Boots claims id (
          audit_failure id
            (boot_with_reserved_capacity id manifest
              (boot_prepared_ready_reset answers id manifest))
            t)
  forked-Boots answers manifest t u =
      audited-Boots claims id
        (boot_with_reserved_capacity id manifest (boot_prepared_ready_reset answers id manifest) t)
        (boot-Boots claims id (boot_prepared_ready_reset answers id manifest)
          (λ guard s v. ready_reset-Booting claims id answers manifest guard s v) manifest t u)

  pub pool_miss-Sound :
      (answers : RestoreAnswers) (base_snapshot_id : String) (m : WorkspaceManager)
      → IsFree claims id m
      → Sound claims (pool_miss_path answers base_snapshot_id id m)
  unfolding pool_miss_path
  pool_miss-Sound answers base_snapshot_id m free =
      prepared-Sound
        (λ manifest.
          audit_failure id (
            boot_with_reserved_capacity id manifest
              (boot_prepared_ready_reset answers id manifest)))
        (forked-Boots answers) answers workspace_created base_snapshot_id
        ((audit_emit pool_miss (some id) m).1)
        (record { sound = others-IsSound claims _ _ _ _ free.sound; none_there = free.none_there })

module _ (claims : LifecycleClaims) (answers : RestoreAnswers) (snapshot_id id : String) where
  pub restore_inner-Keeps : Keeps claims (restore_inner answers snapshot_id id)
  unfolding restore_inner
  restore_inner-Keeps =
      claimed-Keeps id _
        (λ ids m none_there v.
          prepared-Sound ids id
            (λ manifest.
              boot_with_reserved_capacity id manifest (boot_prepared_snapshot answers id manifest))
            (λ manifest t u.
              boot-Boots ids id (boot_prepared_snapshot answers id manifest)
                (λ guard s w. boot_prepared-Booting ids id answers manifest guard s w) manifest t u)
            answers workspace_restored snapshot_id m
            (record { sound = v; none_there = none_there }))
        claims

  pub fork_inner-Keeps : Keeps claims (fork_inner answers snapshot_id id)
  unfolding fork_inner
  fork_inner-Keeps =
      claimed-Keeps id _
        (λ ids m none_there v.
          prepared-Sound ids id
            (λ manifest. audit_failure id (
              boot_with_reserved_capacity id manifest
                (boot_prepared_ready_reset answers id manifest)))
            (forked-Boots ids id answers) answers workspace_forked snapshot_id m
            (record { sound = v; none_there = none_there }))
        claims
