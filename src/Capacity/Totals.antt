-- ===== src/Capacity/Totals.antt =====
-- What the loops of `CapacityLedger::snapshot` of crates/ne-supervisor/src/capacity.rs count, as sums
-- over the ledger's entries.
use ne_enclave.Common.{ℕ, ◌+◌, ◌^◌, ◌≤◌, ◌<◌, ◌≡◌, ◌∙◌, some, [], ◌∷◌, arith, length}
use ne_enclave.Protocol.Supervisor.{running, workspace_state_eq}
use ne_enclave.Map.{Map}
use ne_enclave.Capacity.State.{
  CapacityState, CapacityEntryId, AccountedWorkspace, AccountedPoolMember, WorkspaceCapacityState,
  PoolCapacityState, registered, ready,
}
use ne_enclave.Capacity.Inventory.{
  Counters, no_counters, count_dimensions, count_runnable, count_workspace, count_ready,
  count_pool_entry, count_workspaces, count_pool_entries, count_entries,
}

abbrev running_once : WorkspaceCapacityState → ℕ
running_once WorkspaceCapacityState.reserved = 0
running_once (registered running) = 1
running_once (registered _) = 0

abbrev pub is_running : AccountedWorkspace → ℕ
is_running w = running_once w.state

abbrev counted : WorkspaceCapacityState → ℕ → ℕ
counted WorkspaceCapacityState.reserved n = 0
counted (registered state) n = n

-- `n` for a registered workspace, and nothing for a reservation.
abbrev pub if_registered : AccountedWorkspace → ℕ → ℕ
if_registered w n = counted w.state n

abbrev ready_once : PoolCapacityState → ℕ
ready_once PoolCapacityState.reserved = 0
ready_once ready = 1

abbrev pub one_if_ready : AccountedPoolMember → ℕ
one_if_ready p = ready_once p.state

-- The sum of `f` over the values of a map.
unfoldable pub total : {V : Type 0} → (V → ℕ) → Map CapacityEntryId V → ℕ
total f [] = 0
total f ((k, v) ∷ m) = f v + total f m

abbrev pub registered_in : Map CapacityEntryId AccountedWorkspace → ℕ
registered_in = total (λ w. if_registered w 1)

abbrev pub running_in : Map CapacityEntryId AccountedWorkspace → ℕ
running_in = total is_running

abbrev pub cpu_in : Map CapacityEntryId AccountedWorkspace → ℕ
cpu_in = total (λ w. if_registered w w.cpu_millicores)

abbrev pub memory_in : Map CapacityEntryId AccountedWorkspace → ℕ
memory_in = total (λ w. if_registered w w.memory_bytes)

abbrev pub ready_in : Map CapacityEntryId AccountedPoolMember → ℕ
ready_in = total one_if_ready

abbrev pub pool_cpu_in : Map CapacityEntryId AccountedPoolMember → ℕ
pool_cpu_in = total (λ p. p.cpu_millicores)

abbrev pub pool_memory_in : Map CapacityEntryId AccountedPoolMember → ℕ
pool_memory_in = total (λ p. p.memory_bytes)

-- Every counter fits its type.
pub record InRange (c : Counters) : Type 0 where
  pub registered_fits : c.registered_workspaces < 2 ^ 32
  pub runnable_fits : c.runnable_workspaces < 2 ^ 32
  pub resident_fits : c.resident_workspaces < 2 ^ 32
  pub slots_fit : c.warm_pool_reserved_slots < 2 ^ 32
  pub cpu_fits : c.allocated_cpu_millicores < 2 ^ 64
  pub memory_fits : c.allocated_memory_bytes < 2 ^ 64

-- The counters after the workspaces of `m`, and after the pool entries of `m`.
abbrev pub with_workspaces : Map CapacityEntryId AccountedWorkspace → Counters → Counters
with_workspaces m c = record {
  registered_workspaces = c.registered_workspaces + registered_in m;
  runnable_workspaces = c.runnable_workspaces + running_in m;
  resident_workspaces = c.resident_workspaces + registered_in m;
  warm_pool_reserved_slots = c.warm_pool_reserved_slots;
  allocated_cpu_millicores = c.allocated_cpu_millicores + cpu_in m;
  allocated_memory_bytes = c.allocated_memory_bytes + memory_in m;
}

abbrev pub with_pool_entries : Map CapacityEntryId AccountedPoolMember → Counters → Counters
with_pool_entries m c = record {
  registered_workspaces = c.registered_workspaces;
  runnable_workspaces = c.runnable_workspaces;
  resident_workspaces = c.resident_workspaces + ready_in m;
  warm_pool_reserved_slots = c.warm_pool_reserved_slots + length m;
  allocated_cpu_millicores = c.allocated_cpu_millicores + pool_cpu_in m;
  allocated_memory_bytes = c.allocated_memory_bytes + pool_memory_in m;
}

count_workspace_lem :
    (k : CapacityEntryId) (w : AccountedWorkspace) (c : Counters)
    → InRange (with_workspaces ((k, w) ∷ []) c)
    → count_workspace w c ≡ some (with_workspaces ((k, w) ∷ []) c)
unfolding count_workspace count_runnable count_dimensions total
count_workspace_lem k w c h = ground arith

count_pool_entry_lem :
    (k : CapacityEntryId) (p : AccountedPoolMember) (c : Counters)
    → InRange (with_pool_entries ((k, p) ∷ []) c)
    → count_pool_entry p c ≡ some (with_pool_entries ((k, p) ∷ []) c)
unfolding count_pool_entry count_ready count_dimensions total
count_pool_entry_lem k p c h = ground arith

count_workspaces_lem :
    (m : Map CapacityEntryId AccountedWorkspace) (c : Counters)
    → InRange (with_workspaces m c)
    → count_workspaces m c ≡ some (with_workspaces m c)
unfolding count_workspaces total
count_workspaces_lem [] c h = ground arith
count_workspaces_lem ((k, w) ∷ m) c h =
    rw (count_workspace_lem k w c (omega arith), count_workspaces)
      (count_workspaces_lem m (with_workspaces ((k, w) ∷ []) c) (omega arith) ∙ ground arith)

count_pool_entries_lem :
    (m : Map CapacityEntryId AccountedPoolMember) (c : Counters)
    → InRange (with_pool_entries m c)
    → count_pool_entries m c ≡ some (with_pool_entries m c)
unfolding count_pool_entries total
count_pool_entries_lem [] c h = ground arith
count_pool_entries_lem ((k, p) ∷ m) c h =
    rw (count_pool_entry_lem k p c (omega arith), count_pool_entries)
      (count_pool_entries_lem m (with_pool_entries ((k, p) ∷ []) c) (omega arith) ∙ ground arith)

-- The counters that describe the whole ledger.
abbrev pub totals : CapacityState → Counters
totals s = with_pool_entries s.pool_entries (with_workspaces s.workspaces no_counters)

pub count_entries_lem : (s : CapacityState) → InRange (totals s) → count_entries s ≡ some (totals s)
unfolding count_entries
count_entries_lem s h =
    rw (count_workspaces_lem s.workspaces no_counters (omega arith), count_entries)
      (count_pool_entries_lem s.pool_entries (with_workspaces s.workspaces no_counters) h)

-- How the sums relate.
registered_in-le-length : (m : Map CapacityEntryId AccountedWorkspace) → registered_in m ≤ length m
unfolding total
registered_in-le-length [] = omega arith
registered_in-le-length ((k, w) ∷ m) = ground (arith, registered_in-le-length m)

running_in-le-registered_in :
    (m : Map CapacityEntryId AccountedWorkspace) → running_in m ≤ registered_in m
unfolding total
running_in-le-registered_in [] = omega arith
running_in-le-registered_in ((k, w) ∷ m) = ground (arith, running_in-le-registered_in m)

ready_in-le-length : (m : Map CapacityEntryId AccountedPoolMember) → ready_in m ≤ length m
unfolding total
ready_in-le-length [] = omega arith
ready_in-le-length ((k, p) ∷ m) = ground (arith, ready_in-le-length m)

pub record Related (s : CapacityState) : Type 0 where
  pub registered_le : registered_in s.workspaces ≤ length s.workspaces
  pub running_le : running_in s.workspaces ≤ registered_in s.workspaces
  pub ready_le : ready_in s.pool_entries ≤ length s.pool_entries

pub totals-Related : (s : CapacityState) → Related s
totals-Related s = record {
  registered_le = registered_in-le-length s.workspaces;
  running_le = running_in-le-registered_in s.workspaces;
  ready_le = ready_in-le-length s.pool_entries;
}
