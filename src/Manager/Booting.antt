-- ===== src/Manager/Booting.antt =====
-- The restore and the fork of crates/ne-supervisor/src/workspace.rs, as far as the agreement of the
-- registry and the ledger goes.
use ne_enclave.Common.{
  ℕ, ◌≡◌, sym, subst, Bool, true, false, not, String, string_eq, arith, none, some, Result, ok, err,
  if◌then◌else◌,
}
use ne_enclave.Map.{lookup}
use ne_enclave.Protocol.Supervisor.{workspace_state_eq}
use ne_enclave.Capacity.State.{capacity_dimensions, CapacityError, entry_eq, reserved}
use ne_enclave.Capacity.Admission.{reserve_workspace_entry}
use ne_enclave.Capacity.Guards.{Guard}
use ne_enclave.Lifecycle.Claims.{LifecycleClaims}
use ne_enclave.Pool.State.{Instance}
use ne_enclave.Common.{pure}
use ne_enclave.Common.{bind_rule}
use ne_enclave.Manager.State.{
  WorkspaceManager, SupervisorErrorKind, Manages, reserved_as, reserve_workspace_capacity, internal,
  fork_failed,
}
use ne_enclave.Manager.Steps.{Reserves, reserve-Reserves}
use ne_enclave.Manager.Soundness.{IsSound, IsBooting}
use ne_enclave.Manager.Keeping.{Booting, others-IsSound, faulted-IsBooting, guard_dropped}
use ne_enclave.Manager.Boot.{
  SnapshotDimensions, Verified, prepare_snapshot_restore, RestoreAnswers, boot_prepared_snapshot,
  restored_instance, discard, boot_prepared_ready_reset, keep_reservation,
  boot_with_reserved_capacity, audited, audit_failure,
}
use ne_enclave.Manager.Requests.{is_valid_workspace_id}

-- Before the boot: no instance has the id.
pub record IsFree (claims : LifecycleClaims) (id : String) (m : WorkspaceManager) : Type 0 where
  pub sound : IsSound claims m
  pub none_there : lookup id m.instances ≡ none

abbrev pub Free :
    {A : Type 0}
    → LifecycleClaims
    → String
    → Result SupervisorErrorKind A × WorkspaceManager
    → Type 0
Free claims id x = IsFree claims id x.1

-- What a boot leaves: the reservation of its workspace, or, where it fails, none.
abbrev pub Boots :
    {A : Type 0}
    → LifecycleClaims
    → String
    → Result SupervisorErrorKind (A × Guard) × WorkspaceManager
    → Type 0
Boots claims id (ok (a, guard), m) = IsBooting claims id guard reserved m
Boots claims id (err kind, m) = IsSound claims m

module _ (claims : LifecycleClaims) (id : String) where
  pub reserve-IsBooting :
      (cpu memory : ℕ) (m : WorkspaceManager)
      → IsFree claims id m
      → Reserves claims id (reserve_workspace_capacity id cpu memory m)
  unfolding reserve_workspace_capacity
  reserve-IsBooting cpu memory m free = dimensioned (capacity_dimensions cpu memory)
    where
      dimensioned :
          (x : Result CapacityError (ℕ × ℕ))
          → Reserves claims id (elim x [
            | err _ ↦ (err internal, m)
            | ok (cpu_millicores, memory_bytes) ↦
                reserved_as
                  (λ k. some k)
                  m
                  (reserve_workspace_entry id cpu_millicores memory_bytes m.capacity)
          ])
      dimensioned (err e) = free.sound
      dimensioned (ok (cpu_millicores, memory_bytes)) =
          reserve-Reserves claims m id free.none_there free.sound cpu_millicores memory_bytes

  -- The checks of a restore change nothing.
  pub prepare-state :
      (verified : Verified) (snapshot_id : String) (m : WorkspaceManager)
      → (prepare_snapshot_restore verified snapshot_id id m).1 ≡ m
  unfolding prepare_snapshot_restore is_valid_workspace_id
  prepare-state (err e) snapshot_id m = ground arith
  prepare-state (ok manifest) snapshot_id m = ground arith

  pub audited-Free :
      {A : Type 0} (x : Result SupervisorErrorKind A × WorkspaceManager)
      → Free claims id x
      → Free claims id (audited id x)
  audited-Free (ok a, m) free = free
  audited-Free (err kind, m) free = record {
    sound = others-IsSound claims _ _ _ _ free.sound;
    none_there = free.none_there;
  }

  pub prepared-Free :
      (verified : Verified) (snapshot_id : String) (m : WorkspaceManager)
      → IsFree claims id m
      → Free claims id (audit_failure id (prepare_snapshot_restore verified snapshot_id id) m)
  prepared-Free verified snapshot_id m free =
      audited-Free _ (subst (IsFree claims id) (sym (prepare-state verified snapshot_id m)) free)

  -- A boot behind its reservation.
  module _ {A : Type 0} (boot : Manages A)
      (boots : (guard : Guard) (m : WorkspaceManager)
        → IsBooting claims id guard reserved m
        → Booting claims id guard reserved (boot m)) where
    kept :
        (guard : Guard) (x : Result SupervisorErrorKind A × WorkspaceManager)
        → Booting claims id guard reserved x
        → Boots claims id (keep_reservation guard x)
    kept guard (ok a, m) v = v
    kept guard (err kind, m) v = guard_dropped claims v

    pub boot-Boots :
        (manifest : SnapshotDimensions) (m : WorkspaceManager)
        → IsFree claims id m
        → Boots claims id (boot_with_reserved_capacity id manifest boot m)
    unfolding boot_with_reserved_capacity
    boot-Boots manifest m free =
        bind_rule (Boots claims id) (Reserves claims id)
          (λ guard t. keep_reservation guard (boot t))
          (λ guard t v. kept guard (boot t) (boots guard t v)) (λ e t v. v)
          (reserve_workspace_capacity id manifest.vcpu_count manifest.mem_size_mib) m
          (reserve-IsBooting manifest.vcpu_count manifest.mem_size_mib m free)

  pub audited-Boots :
      {A : Type 0} (x : Result SupervisorErrorKind (A × Guard) × WorkspaceManager)
      → Boots claims id x
      → Boots claims id (audited id x)
  audited-Boots (ok (a, guard), m) v = v
  audited-Boots (err kind, m) v = others-IsSound claims _ _ _ _ v

  -- The two boots.
  module _ (answers : RestoreAnswers) (manifest : SnapshotDimensions) (guard : Guard)
      (m : WorkspaceManager) (v : IsBooting claims id guard reserved m) where
    pub boot_prepared-Booting :
        Booting claims id guard reserved (boot_prepared_snapshot answers id manifest m)
    boot_prepared-Booting = answered answers.restore
      where
        answered :
            (x : Result SupervisorErrorKind String)
            → Booting {A = Instance} claims id guard reserved (elim x [
              | err kind ↦ (err kind, m)
              | ok boot_id ↦ (ok (restored_instance id manifest boot_id), m)
            ])
        answered (ok boot_id) = v
        answered (err kind) = v

    discard-Booting :
        (exit_confirmed : Bool) (kind : SupervisorErrorKind) (t : WorkspaceManager)
        → IsBooting claims id guard reserved t
        → Booting {A = Instance} claims id guard reserved (discard exit_confirmed kind t)
    unfolding discard
    discard-Booting true kind t u = u
    discard-Booting false kind t u = faulted-IsBooting claims u

    pub ready_reset-Booting :
        Booting claims id guard reserved (boot_prepared_ready_reset answers id manifest m)
    unfolding boot_prepared_ready_reset
    ready_reset-Booting =
        bind_rule (Booting claims id guard reserved) (Booting claims id guard reserved) _
          (λ instance t u.
            checked instance t u answers.guest_ready answers.entropy answers.identity_reset)
          (λ e t u. u) (boot_prepared_snapshot answers id manifest) m boot_prepared-Booting
      where
        checked :
            (instance : Instance) (t : WorkspaceManager)
            → IsBooting claims id guard reserved t
            → (guest_ready entropy identity_reset : Bool)
            → Booting claims id guard reserved (
                (if not guest_ready
                    then discard answers.exit_confirmed fork_failed
                    else if not entropy
                    then discard answers.exit_confirmed internal
                    else if not identity_reset
                    then discard answers.exit_confirmed fork_failed
                    else pure instance)
                  t)
        checked instance t u false entropy identity_reset = discard-Booting _ _ t u
        checked instance t u true false identity_reset = discard-Booting _ _ t u
        checked instance t u true true false = discard-Booting _ _ t u
        checked instance t u true true true = u
