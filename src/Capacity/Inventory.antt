-- ===== src/Capacity/Inventory.antt =====
-- `CapacityLedger::snapshot` of crates/ne-supervisor/src/capacity.rs: the inventory that a runner
-- reports.
use ne_enclave.Common.{
  ℕ, ◌^◌, Option, none, some, List, [], ◌∷◌, Result, ok, err, checked_add, filter, if◌then◌else◌,
  ◌==◌,
}
use ne_enclave.Protocol.Profile.{ExecutionProfile, WorkspaceOperation, supports, all_operations}
use ne_enclave.Protocol.Supervisor.{WorkspaceState, running, workspace_state_eq}
use ne_enclave.Protocol.Fleet.{RunnerCapacity, validate}
use ne_enclave.Map.{Map}
use ne_enclave.Capacity.State.{
  CapacityState, CapacityError, CapacityEntryId, AccountedWorkspace, AccountedPoolMember,
  registered_state, is_ready, poisoned, is_faulted, arithmetic_overflow, CapacityLedger,
}

-- The local variables of `snapshot`.
pub record Counters : Type 0 where
  pub registered_workspaces : ℕ
  pub runnable_workspaces : ℕ
  pub resident_workspaces : ℕ
  pub warm_pool_reserved_slots : ℕ
  pub allocated_cpu_millicores : ℕ
  pub allocated_memory_bytes : ℕ

abbrev pub no_counters : Counters
no_counters = record {
  registered_workspaces = 0;
  runnable_workspaces = 0;
  resident_workspaces = 0;
  warm_pool_reserved_slots = 0;
  allocated_cpu_millicores = 0;
  allocated_memory_bytes = 0;
}

-- Code over the counters.
abbrev pub Counting : Type 0
Counting = Counters → Option Counters

-- `n.checked_add(m).ok_or(ArithmeticOverflow)?` over `u32` and over `u64`.
abbrev pub add_u32 : ℕ → ℕ → (ℕ → Counting) → Counting
add_u32 a b k c = elim (checked_add (2 ^ 32) a b) [ none ↦ none | some n ↦ k n c ]

abbrev pub add_u64 : ℕ → ℕ → (ℕ → Counting) → Counting
add_u64 a b k c = elim (checked_add (2 ^ 64) a b) [ none ↦ none | some n ↦ k n c ]

-- The last two additions of both loops.
unfoldable pub count_dimensions : ℕ → ℕ → Counting
count_dimensions cpu memory c =
    add_u64 c.allocated_cpu_millicores cpu
      (λ cpu_sum. add_u64 c.allocated_memory_bytes memory (λ memory_sum _.
        some
          (record c { allocated_cpu_millicores = cpu_sum; allocated_memory_bytes = memory_sum })))
      c

unfoldable pub count_runnable : WorkspaceState → Counting
count_runnable w c =
    if w == running
    then add_u32 c.runnable_workspaces 1 (λ n _. some (record c { runnable_workspaces = n })) c
    else some c

-- The body of the first loop.
unfoldable pub count_workspace : AccountedWorkspace → Counting
count_workspace w c = elim (registered_state w.state) [
  | none ↦ some c
  | some state ↦
      add_u32 c.registered_workspaces 1
        (λ registered_count. add_u32 c.resident_workspaces 1 (λ resident_count _.
          elim (count_runnable state (record c {
            registered_workspaces = registered_count;
            resident_workspaces = resident_count;
          })) [ none ↦ none | some c' ↦ count_dimensions w.cpu_millicores w.memory_bytes c' ]))
        c
]

unfoldable pub count_ready : AccountedPoolMember → Counting
count_ready p c =
    if is_ready p.state
    then add_u32 c.resident_workspaces 1 (λ n _. some (record c { resident_workspaces = n })) c
    else some c

-- The body of the second loop.
unfoldable pub count_pool_entry : AccountedPoolMember → Counting
count_pool_entry p c =
    add_u32 c.warm_pool_reserved_slots 1
      (λ slots _. elim (count_ready p (record c { warm_pool_reserved_slots = slots })) [
        | none ↦ none
        | some c' ↦ count_dimensions p.cpu_millicores p.memory_bytes c'
      ])
      c

-- The loops.
unfoldable pub count_workspaces : Map CapacityEntryId AccountedWorkspace → Counting
count_workspaces [] c = some c
count_workspaces ((k, w) ∷ m) c = elim (count_workspace w c) [
  | none ↦ none
  | some c' ↦ count_workspaces m c'
]

unfoldable pub count_pool_entries : Map CapacityEntryId AccountedPoolMember → Counting
count_pool_entries [] c = some c
count_pool_entries ((k, p) ∷ m) c = elim (count_pool_entry p c) [
  | none ↦ none
  | some c' ↦ count_pool_entries m c'
]

unfoldable pub count_entries : CapacityState → Option Counters
count_entries s = elim (count_workspaces s.workspaces no_counters) [
  | none ↦ none
  | some c ↦ count_pool_entries s.pool_entries c
]

-- The function `supported_operations` of capacity.rs.
unfoldable pub supported_operations : ExecutionProfile → List WorkspaceOperation
supported_operations profile = filter (supports profile) all_operations

unfoldable pub inventory : ExecutionProfile → CapacityState → Counters → RunnerCapacity
inventory profile state c = record {
  revision = state.revision;
  configured_workspace_ceiling = state.configured_workspace_ceiling;
  registered_workspaces = c.registered_workspaces;
  resident_workspaces = c.resident_workspaces;
  runnable_workspaces = c.runnable_workspaces;
  allocated_cpu_millicores = c.allocated_cpu_millicores;
  allocated_memory_bytes = c.allocated_memory_bytes;
  warm_pool_reserved_slots = c.warm_pool_reserved_slots;
  profiles = profile ∷ [];
  operations = supported_operations profile;
}

-- `snapshot`, under the lock. It changes nothing.
unfoldable pub snapshot_locked :
    ExecutionProfile → CapacityState → Result CapacityError RunnerCapacity
snapshot_locked profile state =
    if state.faulted then err is_faulted else elim (count_entries state) [
      | none ↦ err arithmetic_overflow
      | some c ↦ elim (validate (inventory profile state c)) [
        | err e ↦ err (CapacityError.snapshot e)
        | ok _ ↦ ok (inventory profile state c)
      ]
    ]

unfoldable pub snapshot : ExecutionProfile → CapacityLedger → Result CapacityError RunnerCapacity
unfolding snapshot_locked
snapshot profile ledger =
    if ledger.poisoned then err poisoned else snapshot_locked profile ledger.state
