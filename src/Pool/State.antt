-- ===== src/Pool/State.antt =====
-- crates/ne-supervisor/src/pool.rs: the pool, its permits and its members, and what each operation
-- does to them and to the capacity ledger.
use ne_enclave.Common.{
  ℕ, ◌+◌, ◌-◌, ◌^◌, ◌%◌, Bool, true, false, not, ◌||◌, String, Option, none, some, List, [], ◌∷◌,
  ◌++◌, Result, ok, err, length, min, nat_eq, if◌then◌else◌,
}
use ne_enclave.Protocol.Supervisor.{WorkspaceState}
use ne_enclave.Capacity.State.{CapacityError, CapacityState, CapacityEntryId, capacity_dimensions}
use ne_enclave.Capacity.Admission.{reserve_pool_batch_entries}
use ne_enclave.Capacity.Guards.{Guard, Handed, ready_in_place, release_entry, fault_ledger}

pub record WarmPoolConfig : Type 0 where
  pub tier_name : String
  pub base_snapshot_id : String
  pub target_size : ℕ
  pub max_in_flight : ℕ

-- A booted `firecracker::Instance`, without its process, its paths and the metadata of snapshots.
pub record Instance : Type 0 where
  pub workspace_id : String
  pub boot_id : String
  pub lifecycle_state : WorkspaceState
  pub network_slot : Option ℕ
  pub vcpu_count : ℕ
  pub mem_size_mib : ℕ
  pub rootfs_read_only : Bool

-- A ready instance and the guard of its entry.
pub record PoolMember : Type 0 where
  pub instance : Instance
  pub capacity_guard : Guard

pub record WarmPool : Type 0 where
  pub cfg : WarmPoolConfig
  pub members : List PoolMember
  pub in_flight : ℕ

pub record ProvisionPermit : Type 0 where
  pub capacity : Option Guard
  pub cpu_millicores : ℕ
  pub memory_bytes : ℕ
  pub released : Bool

pub data PoolCompletionError : Type 0 where
  dimension_mismatch missing_permit : PoolCompletionError
  capacity : CapacityError → PoolCompletionError

pub record RejectedPoolProvision : Type 0 where
  pub instance : Instance
  pub permit : ProvisionPermit
  pub error : PoolCompletionError

unfoldable pub new : WarmPoolConfig → WarmPool
new cfg = record { cfg = cfg; members = []; in_flight = 0 }

-- `saturating_sub` is the subtraction of ℕ; the sum of the two counts wraps as a `usize` does.
unfoldable pub refill_deficit : ℕ → ℕ → ℕ → ℕ → ℕ
refill_deficit target available in_flight max_in_flight =
    min (target - (available + in_flight) % 2 ^ 64) (max_in_flight - in_flight)

-- `fetch_add(1)` and `fetch_sub(1)` of an `AtomicUsize`.
abbrev pub fetch_add_one : ℕ → ℕ
fetch_add_one n = (n + 1) % 2 ^ 64

abbrev pub fetch_sub_one : ℕ → ℕ
fetch_sub_one n = (n + 2 ^ 64 - 1) % 2 ^ 64

-- The loop over the reservations.
unfoldable pub issue_permits :
    ℕ → ℕ → List CapacityEntryId → WarmPool → List ProvisionPermit × WarmPool
issue_permits cpu_millicores memory_bytes [] pool = ([], pool)
issue_permits cpu_millicores memory_bytes (k ∷ ks) pool =
    let (permits, pool') =
      issue_permits cpu_millicores memory_bytes ks
        (record pool { in_flight = fetch_add_one pool.in_flight }) in
    (
      record {
        capacity = some (some k);
        cpu_millicores = cpu_millicores;
        memory_bytes = memory_bytes;
        released = false;
      }
          ∷ permits,
      pool',
    )

-- The end of `reserve_provisions`: `?` on the ledger's answer, and the loop.
unfoldable pub permits_for :
    ℕ
    → ℕ
    → WarmPool
    → Result CapacityError (List CapacityEntryId) × CapacityState
    → Result CapacityError (List ProvisionPermit) × WarmPool × CapacityState
unfolding issue_permits
permits_for cpu_millicores memory_bytes pool (err e, ledger) = (err e, pool, ledger)
permits_for cpu_millicores memory_bytes pool (ok reservations, ledger) =
    let (permits, pool') = issue_permits cpu_millicores memory_bytes reservations pool in
    (ok permits, pool', ledger)

-- `reserve_provisions`, under the lock of the members.
unfoldable pub reserve_provisions :
    ℕ
    → ℕ
    → WarmPool
    → CapacityState
    → Result CapacityError (List ProvisionPermit) × WarmPool × CapacityState
unfolding permits_for refill_deficit
reserve_provisions cpu_millicores memory_bytes pool ledger =
    permits_for cpu_millicores memory_bytes pool (
      reserve_pool_batch_entries
        (refill_deficit pool.cfg.target_size (length pool.members) pool.in_flight
          pool.cfg.max_in_flight)
        cpu_millicores memory_bytes ledger)

-- `ProvisionPermit::release`, exactly once.
unfoldable pub release_permit : ProvisionPermit → WarmPool → ProvisionPermit × WarmPool
release_permit permit pool = if permit.released then (permit, pool) else (
  record permit { released = true },
  record pool { in_flight = fetch_sub_one pool.in_flight },
)

-- `Drop` of a permit: the slot is released, then its field drops the reservation.
unfoldable pub drop_permit : ProvisionPermit → WarmPool → CapacityState → WarmPool × CapacityState
unfolding release_permit
drop_permit permit pool ledger = (
  (release_permit permit pool).1,
  elim permit.capacity [ none ↦ ledger | some guard ↦ release_entry guard ledger ],
)

-- `complete_provision` up to the point where the member waits for the lock of the members: the checks
-- and the transition of the entry.
abbrev pub Completion : Type 0
Completion = Result RejectedPoolProvision (PoolMember × ProvisionPermit) × CapacityState

abbrev pub completed : Instance → ProvisionPermit → Handed → Completion
completed instance permit (ok guard, old, ledger) = (
  ok (record { instance = instance; capacity_guard = guard }, record permit { capacity = none }),
  ledger,
)
completed instance permit (err e, old, ledger) = (
  err (record {
    instance = instance;
    permit = record permit { capacity = some old };
    error = capacity e;
  }),
  ledger,
)

abbrev pub rejects : Instance → ProvisionPermit → PoolCompletionError → CapacityState → Completion
rejects instance permit error ledger =
    (err (record { instance = instance; permit = permit; error = error }), ledger)

-- The transition of the entry that the permit holds.
abbrev pub ready_permit : Instance → ProvisionPermit → CapacityState → Option Guard → Completion
ready_permit instance permit ledger none = rejects instance permit missing_permit ledger
ready_permit instance permit ledger (some guard) =
    completed instance permit (ready_in_place guard ledger)

-- The comparison with the dimensions that were reserved.
abbrev pub check_dimensions :
    Instance → ProvisionPermit → CapacityState → Result CapacityError (ℕ × ℕ) → Completion
check_dimensions instance permit ledger (err _) = rejects instance permit dimension_mismatch ledger
check_dimensions instance permit ledger (ok (cpu_millicores, memory_bytes)) =
    if not (nat_eq cpu_millicores permit.cpu_millicores)
      || not (nat_eq memory_bytes permit.memory_bytes)
    then rejects instance permit dimension_mismatch ledger
    else ready_permit instance permit ledger permit.capacity

unfoldable pub make_ready : Instance → ProvisionPermit → CapacityState → Completion
make_ready instance permit ledger =
    check_dimensions instance permit ledger
      (capacity_dimensions instance.vcpu_count instance.mem_size_mib)

-- `push_back`, under the lock of the members.
unfoldable pub push_back : PoolMember → WarmPool → WarmPool
push_back member pool = record pool { members = pool.members ++ (member ∷ []) }

-- `complete_provision` where no other task comes between its steps.
unfoldable pub complete_provision :
    Instance
    → ProvisionPermit
    → WarmPool
    → CapacityState
    → Result RejectedPoolProvision (Unit {0}) × WarmPool × CapacityState
unfolding make_ready push_back release_permit
complete_provision instance permit pool ledger =
    let (completion, ledger') = make_ready instance permit ledger in
    elim completion [
      | err rejected ↦ (err rejected, pool, ledger')
      | ok (member, permit') ↦ (ok tt, (release_permit permit' (push_back member pool)).1, ledger')
    ]

-- `pop`: `pop_front`.
abbrev pub pop_front : List PoolMember → Option PoolMember × List PoolMember
pop_front [] = (none, [])
pop_front (member ∷ members) = (some member, members)

unfoldable pub pop : WarmPool → Option PoolMember × WarmPool
pop pool =
    let (member, members) = pop_front pool.members in (member, record pool { members = members })

unfoldable pub drain : WarmPool → List PoolMember × WarmPool
drain pool = (pool.members, record pool { members = [] })

-- `teardown` of a rejected provision, by whether the exit of its process was confirmed: where it was
-- not, the ledger is faulted and the permit forgotten.
unfoldable pub teardown_rejected :
    Bool → RejectedPoolProvision → WarmPool → CapacityState → WarmPool × CapacityState
unfolding drop_permit
teardown_rejected exit_confirmed rejected pool ledger =
    if exit_confirmed
    then drop_permit rejected.permit pool ledger
    else (pool, elim rejected.permit.capacity [ none ↦ ledger | some _ ↦ fault_ledger ledger ])

-- `teardown` of a member, by the same test.
unfoldable pub teardown_member : Bool → PoolMember → CapacityState → CapacityState
unfolding release_entry fault_ledger
teardown_member exit_confirmed member ledger =
    if exit_confirmed then release_entry member.capacity_guard ledger else fault_ledger ledger
