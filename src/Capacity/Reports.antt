-- ===== src/Capacity/Reports.antt =====
-- The inventory that a ledger of crates/ne-supervisor/src/capacity.rs reports, and its validation in
-- crates/ne-protocol/src/fleet.rs.
use ne_enclave.Common.{List, length, ◌+◌, ◌≤◌, ◌≡◌, refl, false, ok, arith, [], ◌∷◌}
use ne_enclave.Protocol.Profile.{
  ExecutionProfile, standard, confidential_azure, all_operations, WorkspaceOperation, create,
  destroy, execute, write_file, read_file, pause, resume, snapshot, restore, fork, warm_pool,
  ingress, attest, supports, profile_eq, operation_eq,
}
use ne_enclave.Protocol.Fleet.{
  RunnerCapacity, validate, out_of_range, inconsistent, has_duplicates, contains,
  max_runner_workspaces, max_cpu_millicores, max_memory_bytes,
}
use ne_enclave.Capacity.State.{CapacityState}
use ne_enclave.Capacity.Invariant.{Inv}
use ne_enclave.Capacity.Inventory.{inventory, snapshot_locked, supported_operations}
use ne_enclave.Capacity.Totals.{
  totals, registered_in, ready_in, running_in, count_entries_lem, totals-Related, cpu_in, memory_in,
  pool_cpu_in, pool_memory_in, InRange,
}

profiles_distinct : (p : ExecutionProfile) → has_duplicates (p ∷ []) ≡ false
unfolding has_duplicates contains
profiles_distinct p = refl

operations_distinct : (p : ExecutionProfile) → has_duplicates (supported_operations p) ≡ false
unfolding supported_operations supports all_operations has_duplicates contains
operations_distinct standard = refl
operations_distinct confidential_azure = refl

-- The dimensions that the ledger accounts for stay within the limits of the protocol.
pub record WithinLimits (s : CapacityState) : Type 0 where
  pub ceiling : s.configured_workspace_ceiling ≤ max_runner_workspaces
  pub cpu : cpu_in s.workspaces + pool_cpu_in s.pool_entries ≤ max_cpu_millicores
  pub memory : memory_in s.workspaces + pool_memory_in s.pool_entries ≤ max_memory_bytes

-- The operations of a profile, in the order of the protocol.
abbrev pub operations_of : ExecutionProfile → List WorkspaceOperation
operations_of standard =
    create ∷ destroy ∷ execute ∷ write_file ∷ read_file ∷ pause ∷ resume ∷ snapshot ∷ restore ∷ fork
    ∷ warm_pool ∷ ingress ∷ attest ∷ []
operations_of confidential_azure = create ∷ destroy ∷ execute ∷ write_file ∷ read_file ∷ attest ∷ []

-- What an inventory says of a ledger: its entries counted and summed.
pub record Reports (p : ExecutionProfile) (s : CapacityState) (r : RunnerCapacity) : Type 0 where
  pub revision : r.revision ≡ s.revision
  pub ceiling : r.configured_workspace_ceiling ≡ s.configured_workspace_ceiling
  pub registered : r.registered_workspaces ≡ registered_in s.workspaces
  pub resident : r.resident_workspaces ≡ registered_in s.workspaces + ready_in s.pool_entries
  pub runnable : r.runnable_workspaces ≡ running_in s.workspaces
  pub cpu : r.allocated_cpu_millicores ≡ cpu_in s.workspaces + pool_cpu_in s.pool_entries
  pub memory : r.allocated_memory_bytes ≡ memory_in s.workspaces + pool_memory_in s.pool_entries
  pub slots : r.warm_pool_reserved_slots ≡ length s.pool_entries
  pub profiles : r.profiles ≡ p ∷ []
  pub operations : r.operations ≡ operations_of p

supported_operations_lem : (p : ExecutionProfile) → supported_operations p ≡ operations_of p
unfolding supported_operations supports all_operations
supported_operations_lem standard = refl
supported_operations_lem confidential_azure = refl

inventory-Reports :
    (p : ExecutionProfile) (s : CapacityState) → Reports p s (inventory p s (totals s))
unfolding inventory
inventory-Reports p s = record {
  revision = refl;
  ceiling = refl;
  registered = omega arith;
  resident = omega arith;
  runnable = omega arith;
  cpu = omega arith;
  memory = omega arith;
  slots = omega arith;
  profiles = refl;
  operations = supported_operations_lem p;
}

module _ (p : ExecutionProfile) (s : CapacityState) (v : Inv s) (l : WithinLimits s) where
  in_range : InRange (totals s)
  in_range = let r = totals-Related s in omega (arith, r, v.within, l.ceiling, l.cpu, l.memory)

  inventory_in_range : out_of_range (inventory p s (totals s)) ≡ false
  unfolding out_of_range inventory
  inventory_in_range = ground (arith, totals-Related s, v.within, l.ceiling, l.cpu, l.memory)

  inventory_consistent : inconsistent (inventory p s (totals s)) ≡ false
  unfolding inconsistent inventory
  inventory_consistent =
      ground
        (arith, totals-Related s, v.within, l.ceiling, profiles_distinct p, operations_distinct p)

  snapshot_locked_lem : s.faulted ≡ false → snapshot_locked p s ≡ ok (inventory p s (totals s))
  unfolding snapshot_locked validate
  snapshot_locked_lem healthy =
      ground (arith, count_entries_lem s in_range, inventory_in_range, inventory_consistent)

  -- In a healthy state whose invariant holds and whose ceiling, CPU and memory are within the limits
  -- of the fleet protocol, the snapshot succeeds. It reports the ledger's revision and ceiling, the
  -- numbers of registered and of running workspaces, of registered workspaces and ready pool members
  -- together, and of pool entries, the CPU and the memory of registered workspaces and pool entries,
  -- and the profile with its operations.
  pub snapshot_locked-Reports :
      s.faulted ≡ false → (r : RunnerCapacity) × (snapshot_locked p s ≡ ok r) × Reports p s r
  snapshot_locked-Reports healthy =
      (inventory p s (totals s), snapshot_locked_lem healthy, inventory-Reports p s)
