-- ===== src/Manager/State.antt =====
-- crates/ne-supervisor/src/workspace.rs: the manager's state, its answers, and the steps that its
-- operations share.
use ne_enclave.Common.{
  ℕ, Bool, String, string_eq, Option, none, some, List, ◌∷◌, Result, ok, err, Exec, raise, ◌>>◌,
  if◌then◌else◌,
}
use ne_enclave.Map.{Map, contains_key, insert}
use ne_enclave.Text.{Text}
use ne_enclave.Protocol.Profile.{ExecutionProfile}
use ne_enclave.Audit.Event.{EventType}
use ne_enclave.Capacity.State.{CapacityError, CapacityState, capacity_dimensions, exhausted}
use ne_enclave.Capacity.Admission.{reserve_workspace_entry}
use ne_enclave.Capacity.Guards.{Guard, register_in_place, release_entry, fault_ledger}
use ne_enclave.Lifecycle.Claims.{LifecycleClaims, claim, drop_lease}
use ne_enclave.Lifecycle.Nonces.{NonceRing}
use ne_enclave.Pool.State.{Instance, WarmPool}
use ne_enclave.Network.Slots.{Slots}
use ne_enclave.Network.Policy.{teardown}
use ne_enclave.Ingress.Registry.{IngressRegistry}

-- `SupervisorErrorKind`.
pub data SupervisorErrorKind : Type 0 where
  unauthorized invalid_request invalid_image_digest image_not_found : SupervisorErrorKind
  image_rejected image_digest_mismatch image_stage_failed unsupported : SupervisorErrorKind
  unsupported_for_profile workspace_already_exists workspace_not_found : SupervisorErrorKind
  launch_failed guest_unreachable guest_protocol_error timeout internal : SupervisorErrorKind
  path_rejected file_too_large file_not_found io_error snapshot_failed : SupervisorErrorKind
  restore_failed invalid_snapshot workspace_not_paused workspace_already_paused :
      SupervisorErrorKind
  fork_failed tier_not_found capacity_exceeded confidential_capacity_exceeded : SupervisorErrorKind
  workspace_not_networked ingress_port_not_found attestation_replay : SupervisorErrorKind

-- A registered instance and the guard of its entry.
pub record FirecrackerWorkspace : Type 0 where
  pub instance : Instance
  pub capacity_guard : Guard

-- An event of the audit log, without its payload.
pub record AuditEntry : Type 0 where
  pub event_type : EventType
  pub workspace_id : Option String

-- The mutexes of the registry, the ledger and the nonces are never poisoned: no code under them
-- panics. `networking` says whether there is a network controller, whose slots are `slots`.
pub record WorkspaceManager : Type 0 where
  pub execution_profile : ExecutionProfile
  pub max_workspace_mem_mib : ℕ
  pub networking : Bool
  pub pool : Option WarmPool
  pub instances : Map String FirecrackerWorkspace
  pub lifecycle_claims : LifecycleClaims
  pub capacity : CapacityState
  pub slots : Slots
  pub ingress : IngressRegistry
  pub attestation_nonces : Map String (NonceRing Text)
  pub events : List AuditEntry

abbrev pub Manages : Type 0 → Type 0
Manages = Exec SupervisorErrorKind WorkspaceManager

-- `audit_emit`, which logs its failures and goes on.
abbrev pub audit_emit : EventType → Option String → Manages (Unit {0})
audit_emit event_type workspace_id m = (
  ok tt,
  record m { events = record { event_type = event_type; workspace_id = workspace_id } ∷ m.events },
)

-- `Drop` of a guard, and `fail_closed`.
abbrev pub drop_guard : Guard → Manages (Unit {0})
drop_guard guard m = (ok tt, record m { capacity = release_entry guard m.capacity })

abbrev pub fail_closed : Manages (Unit {0})
fail_closed m = (ok tt, record m { capacity = fault_ledger m.capacity })

-- `controller.teardown(slot)` where there is a slot and a controller.
abbrev pub teardown_network : Option ℕ → Manages (Unit {0})
teardown_network none m = (ok tt, m)
teardown_network (some slot) m =
    (ok tt, if m.networking then record m { slots = teardown slot m.slots } else m)

-- `claim_boot`: the lease is dropped again where the id is registered.
unfoldable pub claim_boot : String → Manages (Unit {0})
unfolding claim drop_lease
claim_boot workspace_id m =
    let (lease, ids) = claim workspace_id m.lifecycle_claims in
    elim lease [
      | none ↦ (err workspace_already_exists, m)
      | some _ ↦
          if contains_key workspace_id m.instances
          then (
            err workspace_already_exists,
            record m { lifecycle_claims = drop_lease workspace_id ids },
          )
          else (ok tt, record m { lifecycle_claims = ids })
    ]

-- Code that holds a lease, which is dropped whatever the code returns.
abbrev pub release_lease :
    {A : Type 0}
    → String
    → Result SupervisorErrorKind A × WorkspaceManager
    → Result SupervisorErrorKind A × WorkspaceManager
release_lease workspace_id (r, m) =
    (r, record m { lifecycle_claims = drop_lease workspace_id m.lifecycle_claims })

abbrev pub with_lease : {A : Type 0} → String → Manages A → Manages A
with_lease workspace_id body m = release_lease workspace_id (body m)

-- The kind of the answer to a capacity error.
abbrev pub capacity_error_kind : CapacityError → SupervisorErrorKind
capacity_error_kind exhausted = capacity_exceeded
capacity_error_kind _ = internal

abbrev pub reserved_as :
    {A : Type 0}
    → (A → Guard)
    → WorkspaceManager
    → Result CapacityError A × CapacityState
    → Result SupervisorErrorKind Guard × WorkspaceManager
reserved_as owns m (ok a, s) = (ok (owns a), record m { capacity = s })
reserved_as owns m (err e, s) = (err (capacity_error_kind e), record m { capacity = s })

-- `reserve_workspace_capacity`.
unfoldable pub reserve_workspace_capacity : String → ℕ → ℕ → Manages Guard
reserve_workspace_capacity workspace_id vcpu_count mem_size_mib m =
    elim (capacity_dimensions vcpu_count mem_size_mib) [
      | err _ ↦ (err internal, m)
      | ok (cpu_millicores, memory_bytes) ↦
          reserved_as (λ k. some k) m
            (reserve_workspace_entry workspace_id cpu_millicores memory_bytes m.capacity)
    ]

-- `PendingFirecracker::teardown`, by whether the exit of the process is confirmed. The pending owner
-- has a network cleanup where the instance has a slot and there is a controller.
unfoldable pub teardown_pending : Bool → Instance → Guard → Manages (Unit {0})
teardown_pending exit_confirmed instance guard =
    if exit_confirmed
    then (do teardown_network instance.network_slot; drop_guard guard)
    else fail_closed

-- The registration under the registry's lock, of a pending owner whose guard is registered.
abbrev pub insert_pending : Bool → String → Instance → Guard → Manages (Unit {0})
insert_pending exit_confirmed workspace_id instance guard m =
    if contains_key workspace_id m.instances
    then (teardown_pending exit_confirmed instance guard >> raise workspace_already_exists) m
    else (
      ok tt,
      record m {
        instances =
            insert workspace_id (record { instance = instance; capacity_guard = guard })
              m.instances;
      },
    )

-- `PendingFirecracker::register`, where the owner is a reservation, and where it is registered.
pub data PendingOwner : Type 0 where
  reserved registered : Guard → PendingOwner

abbrev pub promoted :
    Bool
    → String
    → Instance
    → WorkspaceManager
    → Result CapacityError Guard × Guard × CapacityState
    → Result SupervisorErrorKind (Unit {0}) × WorkspaceManager
promoted exit_confirmed workspace_id instance m (ok guard, old, s) =
    insert_pending exit_confirmed workspace_id instance guard (record m { capacity = s })
promoted exit_confirmed workspace_id instance m (err e, old, s) =
    (teardown_pending exit_confirmed instance old >> raise internal) (record m { capacity = s })

-- `register_pending_firecracker`.
unfoldable pub register_pending_firecracker :
    Bool → String → Instance → PendingOwner → Manages (Unit {0})
unfolding teardown_pending register_in_place
register_pending_firecracker exit_confirmed workspace_id instance (reserved guard) m =
    promoted exit_confirmed workspace_id instance m
      (register_in_place guard instance.lifecycle_state m.capacity)
register_pending_firecracker exit_confirmed workspace_id instance (registered guard) m =
    insert_pending exit_confirmed workspace_id instance guard m
