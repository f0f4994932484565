-- ===== src/Capacity/State.antt =====
-- crates/ne-supervisor/src/capacity.rs: the ledger's entries, its lock, and the checks that every
-- change starts with.
use ne_enclave.Common.{
  ℕ, ◌*◌, ◌^◌, Bool, true, false, String, Option, none, some, [], Result, ok, err, ok_or, Exec,
  length, leb, nat_eq, checked_add, Eq, if◌then◌else◌, ◌≡◌, ◌↔◌, arith, str_eq, eq_iff, ltb,
}
use ne_enclave.Map.{Map}
use ne_enclave.Protocol.Fleet.{FleetValidationError}
use ne_enclave.Protocol.Supervisor.{WorkspaceState, workspace_state_eq}

pub data CapacityError : Type 0 where
  poisoned exhausted duplicate_workspace missing_entry : CapacityError
  invalid_transition arithmetic_overflow is_faulted : CapacityError
  snapshot : FleetValidationError → CapacityError

-- `checked_mul` of `u64`.
abbrev pub checked_mul : ℕ → ℕ → Option ℕ
checked_mul a b = if ltb (a * b) (2 ^ 64) then some (a * b) else none

unfoldable pub capacity_dimensions : ℕ → ℕ → Result CapacityError (ℕ × ℕ)
capacity_dimensions vcpu_count mem_size_mib = elim (checked_mul vcpu_count 1_000) [
  | none ↦ err arithmetic_overflow
  | some cpu_millicores ↦ elim (checked_mul mem_size_mib (1_024 * 1_024)) [
    | none ↦ err arithmetic_overflow
    | some memory_bytes ↦ ok (cpu_millicores, memory_bytes)
  ]
]

pub data CapacityEntryId : Type 0 where
  workspace : String → CapacityEntryId
  pool : ℕ → CapacityEntryId

-- The derived `PartialEq`.
abbrev pub same_entry : CapacityEntryId → CapacityEntryId → Bool
same_entry (workspace a) (workspace b) = str_eq a b
same_entry (pool a) (pool b) = nat_eq a b
same_entry _ _ = false

pub same_entry_iff : (a b : CapacityEntryId) → (same_entry a b ≡ true) ↔ (a ≡ b)
same_entry_iff (workspace a) (workspace b) = ground (arith, eq_iff a b)
same_entry_iff (workspace a) (pool b) = ground arith
same_entry_iff (pool a) (workspace b) = ground arith
same_entry_iff (pool a) (pool b) = ground arith

instance abbrev pub entry_eq : Eq CapacityEntryId
entry_eq = record { beq = same_entry; beq_iff = same_entry_iff }

pub data WorkspaceCapacityState : Type 0 where
  reserved : WorkspaceCapacityState
  registered : WorkspaceState → WorkspaceCapacityState

pub record AccountedWorkspace : Type 0 where
  pub state : WorkspaceCapacityState
  pub cpu_millicores : ℕ
  pub memory_bytes : ℕ

pub data PoolCapacityState : Type 0 where
  reserved ready : PoolCapacityState

-- The tests `state != Reserved` and `state != Ready`, and `let Registered(current) = state else`.
abbrev pub is_reserved : WorkspaceCapacityState → Bool
is_reserved WorkspaceCapacityState.reserved = true
is_reserved (registered state) = false

abbrev pub registered_state : WorkspaceCapacityState → Option WorkspaceState
registered_state WorkspaceCapacityState.reserved = none
registered_state (registered state) = some state

abbrev pub is_ready : PoolCapacityState → Bool
is_ready PoolCapacityState.reserved = false
is_ready ready = true

pub record AccountedPoolMember : Type 0 where
  pub state : PoolCapacityState
  pub cpu_millicores : ℕ
  pub memory_bytes : ℕ

pub record CapacityState : Type 0 where
  pub revision : ℕ
  pub faulted : Bool
  pub configured_workspace_ceiling : ℕ
  pub next_pool_id : ℕ
  pub workspaces : Map CapacityEntryId AccountedWorkspace
  pub pool_entries : Map CapacityEntryId AccountedPoolMember

-- The state behind its `Mutex`, which a panic under the lock leaves poisoned.
pub record CapacityLedger : Type 0 where
  pub poisoned : Bool
  pub state : CapacityState

-- Code that runs under the lock.
abbrev pub Locked : Type 0 → Type 0
Locked = Exec CapacityError CapacityState

-- `lock()?`, the code, and the release of the lock.
abbrev pub locked :
    {A : Type 0} → Locked A → CapacityLedger → Result CapacityError A × CapacityLedger
locked m ledger =
    if ledger.poisoned
    then (err poisoned, ledger)
    else (let (r, s) = m ledger.state in (r, record ledger { state = s }))

unfoldable pub new : ℕ → CapacityLedger
new configured_workspace_ceiling = record {
  poisoned = false;
  state = record {
    revision = 0;
    faulted = false;
    configured_workspace_ceiling = configured_workspace_ceiling;
    next_pool_id = 0;
    workspaces = [];
    pool_entries = [];
  };
}

unfoldable pub ensure_healthy : Locked (Unit {0})
ensure_healthy state = if state.faulted then (err is_faulted, state) else (ok tt, state)

unfoldable pub entry_count : CapacityState → Result CapacityError ℕ
entry_count state =
    ok_or (checked_add (2 ^ 64) (length state.workspaces) (length state.pool_entries))
      arithmetic_overflow

-- `usize::try_from` of a `u32` never fails where a `usize` has 64 bits.
unfoldable pub ensure_capacity : Locked (Unit {0})
unfolding entry_count
ensure_capacity state = elim (entry_count state) [
  | err e ↦ (err e, state)
  | ok used ↦
      if leb state.configured_workspace_ceiling used then (err exhausted, state) else (ok tt, state)
]

-- A revision that would not fit faults the ledger.
unfoldable pub preflight_next_revision : Locked ℕ
unfolding ensure_healthy
preflight_next_revision state =
    if state.faulted
    then (err is_faulted, state)
    else elim (checked_add (2 ^ 64) state.revision 1) [
      | none ↦ (err is_faulted, record state { faulted = true })
      | some next_revision ↦ (ok next_revision, state)
    ]

unfoldable pub preflight_revision_range : ℕ → Locked (Unit {0})
preflight_revision_range count state =
    if state.faulted
    then (err is_faulted, state)
    else elim (checked_add (2 ^ 64) state.revision count) [
      | none ↦ (err is_faulted, record state { faulted = true })
      | some _ ↦ (ok tt, state)
    ]

abbrev pub commit_revision : ℕ → CapacityState → CapacityState
commit_revision next_revision state = record state { revision = next_revision }
