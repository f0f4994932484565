-- ===== src/Manager/Registry.antt =====
-- What the steps of crates/ne-supervisor/src/workspace.rs do to the registry: those that boot a
-- workspace leave it alone until it is registered.
use ne_enclave.Common.{
  ℕ, ◌≡◌, ap, sym, subst, Bool, true, false, not, String, string_eq, Option, none, some, [], Result,
  ok, err, ◌>>=◌, ◌>>◌, if◌then◌else◌,
}
use ne_enclave.Map.{Map, contains_key, insert}
use ne_enclave.Protocol.Supervisor.{workspace_state_eq}
use ne_enclave.Capacity.State.{
  capacity_dimensions, CapacityError, CapacityState, CapacityEntryId, entry_eq,
}
use ne_enclave.Capacity.Admission.{reserve_workspace_entry}
use ne_enclave.Capacity.Guards.{Guard, Handed, register_in_place}
use ne_enclave.Pool.State.{Instance}
use ne_enclave.Common.{pure, raise}
use ne_enclave.Common.{bind_rule}
use ne_enclave.Manager.State.{
  WorkspaceManager, FirecrackerWorkspace, SupervisorErrorKind, Manages, drop_guard,
  teardown_network, reserved_as, reserve_workspace_capacity, teardown_pending, insert_pending,
  PendingOwner, promoted, register_pending_firecracker, workspace_already_exists, internal,
  fork_failed,
}
use ne_enclave.Manager.Boot.{
  SnapshotDimensions, Verified, prepare_snapshot_restore, RestoreAnswers, boot_prepared_snapshot,
  restored_instance, discard, boot_prepared_ready_reset, keep_reservation,
  boot_with_reserved_capacity, audited, audit_failure,
}
use ne_enclave.Manager.Booting.{prepare-state}
use ne_enclave.Manager.Keeping.{either_state}

abbrev pub Instances : Type 0
Instances = Map String FirecrackerWorkspace

module _ (instances : Instances) where
  abbrev pub Same : {A : Type 0} → Result SupervisorErrorKind A × WorkspaceManager → Type 0
  Same x = x.1.instances ≡ instances

  abbrev pub LeavesSame : {A : Type 0} → Manages A → Type 0
  LeavesSame body = (m : WorkspaceManager) → m.instances ≡ instances → Same (body m)

  pub bind-Same :
      {A B : Type 0} (body : Manages A) (next : A → Manages B)
      → LeavesSame body
      → ((a : A) → LeavesSame (next a))
      → LeavesSame (body >>= next)
  bind-Same body next first second m e =
      bind_rule Same Same next second (λ k t u. u) body m (first m e)

  pub teardown_network-Same : (slot : Option ℕ) → LeavesSame (teardown_network slot)
  teardown_network-Same none m e = e
  teardown_network-Same (some slot) m e =
      either_state (λ t. t.instances ≡ instances) m.networking _ _ e e

  pub teardown_pending-Same :
      (exit_confirmed : Bool) (instance : Instance) (guard : Guard)
      → LeavesSame (teardown_pending exit_confirmed instance guard)
  unfolding teardown_pending
  teardown_pending-Same true instance guard m e =
      bind-Same (teardown_network instance.network_slot) (λ _. drop_guard guard)
        (teardown_network-Same instance.network_slot) (λ _ t u. u) m e
  teardown_pending-Same false instance guard m e = e

  pub reserve-Same :
      (id : String) (cpu memory : ℕ) → LeavesSame (reserve_workspace_capacity id cpu memory)
  unfolding reserve_workspace_capacity
  reserve-Same id cpu memory m e = dimensioned (capacity_dimensions cpu memory)
    where
      answered :
          (x : Result CapacityError CapacityEntryId × CapacityState)
          → Same (reserved_as (λ k. some k) m x)
      answered (ok k, s) = e
      answered (err k, s) = e

      dimensioned :
          (x : Result CapacityError (ℕ × ℕ))
          → Same {A = Guard} (elim x [
            | err _ ↦ (err internal, m)
            | ok (cpu_millicores, memory_bytes) ↦
                reserved_as
                  (λ k. some k)
                  m
                  (reserve_workspace_entry id cpu_millicores memory_bytes m.capacity)
          ])
      dimensioned (err k) = e
      dimensioned (ok (cpu_millicores, memory_bytes)) =
          answered (reserve_workspace_entry id cpu_millicores memory_bytes m.capacity)

  -- The boot from a snapshot.
  audited-Same :
      {A : Type 0} (id : String) (x : Result SupervisorErrorKind A × WorkspaceManager)
      → Same x
      → Same (audited id x)
  audited-Same id (ok a, m) e = e
  audited-Same id (err k, m) e = e

  pub audit_failure-Same :
      {A : Type 0} (id : String) (body : Manages A)
      → LeavesSame body
      → LeavesSame (audit_failure id body)
  audit_failure-Same id body same m e = audited-Same id (body m) (same m e)

  pub prepare-Same :
      (verified : Verified) (snapshot_id id : String)
      → LeavesSame (prepare_snapshot_restore verified snapshot_id id)
  prepare-Same verified snapshot_id id m e =
      subst (λ t. t.instances ≡ instances) (sym (prepare-state [] id verified snapshot_id m)) e

  pub boot_prepared-Same :
      (answers : RestoreAnswers) (id : String) (manifest : SnapshotDimensions)
      → LeavesSame (boot_prepared_snapshot answers id manifest)
  boot_prepared-Same answers id manifest m e = answered answers.restore
    where
      answered :
          (x : Result SupervisorErrorKind String)
          → Same {A = Instance} (elim x [
            | err kind ↦ (err kind, m)
            | ok boot_id ↦ (ok (restored_instance id manifest boot_id), m)
          ])
      answered (ok boot_id) = e
      answered (err kind) = e

  discard-Same :
      (exit_confirmed : Bool) (kind : SupervisorErrorKind)
      → LeavesSame {A = Instance} (discard exit_confirmed kind)
  unfolding discard
  discard-Same true kind m e = e
  discard-Same false kind m e = e

  pub ready_reset-Same :
      (answers : RestoreAnswers) (id : String) (manifest : SnapshotDimensions)
      → LeavesSame (boot_prepared_ready_reset answers id manifest)
  unfolding boot_prepared_ready_reset
  ready_reset-Same answers id manifest m e =
      bind_rule Same Same _
        (λ instance t u.
          checked instance t u answers.guest_ready answers.entropy answers.identity_reset)
        (λ k t u. u) (boot_prepared_snapshot answers id manifest) m
        (boot_prepared-Same answers id manifest m e)
    where
      checked :
          (instance : Instance) (t : WorkspaceManager)
          → t.instances ≡ instances
          → (guest_ready entropy identity_reset : Bool)
          → Same (
              (if not guest_ready
                  then discard answers.exit_confirmed fork_failed
                  else if not entropy
                  then discard answers.exit_confirmed internal
                  else if not identity_reset
                  then discard answers.exit_confirmed fork_failed
                  else pure instance)
                t)
      checked instance t u false entropy identity_reset =
          discard-Same answers.exit_confirmed fork_failed t u
      checked instance t u true false identity_reset =
          discard-Same answers.exit_confirmed internal t u
      checked instance t u true true false = discard-Same answers.exit_confirmed fork_failed t u
      checked instance t u true true true = u

  kept-Same :
      {A : Type 0} (guard : Guard) (x : Result SupervisorErrorKind A × WorkspaceManager)
      → Same x
      → Same (keep_reservation guard x)
  kept-Same guard (ok a, m) e = e
  kept-Same guard (err k, m) e = e

  pub boot_with-Same :
      {A : Type 0} (id : String) (manifest : SnapshotDimensions) (boot : Manages A)
      → LeavesSame boot
      → LeavesSame (boot_with_reserved_capacity id manifest boot)
  unfolding boot_with_reserved_capacity
  boot_with-Same id manifest boot same m e =
      bind_rule Same Same (λ guard t. keep_reservation guard (boot t))
        (λ guard t u. kept-Same guard (boot t) (same t u)) (λ k t u. u)
        (reserve_workspace_capacity id manifest.vcpu_count manifest.mem_size_mib) m
        (reserve-Same id manifest.vcpu_count manifest.mem_size_mib m e)

-- What a creation leaves: the new instance under its id, and no change where it fails.
abbrev pub Registers :
    {A : Type 0}
    → String
    → Instance
    → Instances
    → Result SupervisorErrorKind A × WorkspaceManager
    → Type 0
Registers id instance instances (ok _, m) =
    (guard : Guard) × (m.instances
      ≡ insert id (record { instance = instance; capacity_guard = guard }) instances)
Registers id instance instances (err k, m) = m.instances ≡ instances

abbrev pub Creates :
    String → Instances → Result SupervisorErrorKind Instance × WorkspaceManager → Type 0
Creates id instances (ok instance, m) =
    (guard : Guard) × (m.instances
      ≡ insert id (record { instance = instance; capacity_guard = guard }) instances)
Creates id instances (err k, m) = m.instances ≡ instances

module _ (instances : Instances) (id : String) (exit_confirmed : Bool) (instance : Instance) where
  insert-Registers :
      (guard : Guard) (m : WorkspaceManager)
      → m.instances ≡ instances
      → Registers id instance instances (insert_pending exit_confirmed id instance guard m)
  insert-Registers guard m e = where_taken (contains_key id m.instances)
    where
      where_taken :
          (taken : Bool)
          → Registers {A = Unit {0}} id instance instances (
              if taken
              then (teardown_pending exit_confirmed instance guard
                    >> raise workspace_already_exists)
                  m
              else (
                ok tt,
                record m {
                  instances =
                      insert id
                        (record { instance = instance; capacity_guard = guard })
                        m.instances;
                },
              ))
      where_taken true =
          bind_rule (Registers id instance instances) (Same instances)
            (λ _. raise workspace_already_exists) (λ a t u. u) (λ k t u. u)
            (teardown_pending exit_confirmed instance guard) m
            (teardown_pending-Same instances exit_confirmed instance guard m e)
      where_taken false =
          (guard, ap (insert id (record { instance = instance; capacity_guard = guard })) e)

  promoted-Registers :
      (m : WorkspaceManager) (x : Handed)
      → m.instances ≡ instances
      → Registers id instance instances (promoted exit_confirmed id instance m x)
  promoted-Registers m (ok guard, old, s) e = insert-Registers guard (record m { capacity = s }) e
  promoted-Registers m (err k, old, s) e =
      bind_rule (Registers id instance instances) (Same instances) (λ _. raise internal)
        (λ a t u. u) (λ k t u. u) (teardown_pending exit_confirmed instance old) _
        (teardown_pending-Same instances exit_confirmed instance old (record m { capacity = s }) e)

  pub register-Registers :
      (owner : PendingOwner) (m : WorkspaceManager)
      → m.instances ≡ instances
      → Registers id instance instances
          (register_pending_firecracker exit_confirmed id instance owner m)
  unfolding register_pending_firecracker
  register-Registers (PendingOwner.reserved guard) m e =
      promoted-Registers m (register_in_place guard instance.lifecycle_state m.capacity) e
  register-Registers (PendingOwner.registered guard) m e = insert-Registers guard m e
