-- ===== src/Capacity/Admission.antt =====
-- crates/ne-supervisor/src/capacity.rs: what each operation of the ledger and of its guards does
-- under the ledger's lock.
use ne_enclave.Common.{
  ℕ, zero, suc, ◌-◌, ◌^◌, Bool, not, String, List, [], ◌∷◌, Result, ok, err, require, pure, raise,
  lift, get, put, ◌>>=◌, ◌>>◌, min, leb, nat_eq, checked_add, ◌==◌, if◌then◌else◌,
}
use ne_enclave.Map.{lookup, contains_key, insert, remove}
use ne_enclave.Protocol.Supervisor.{WorkspaceState, workspace_state_eq}
use ne_enclave.Capacity.State.{
  CapacityError, CapacityEntryId, entry_eq, is_reserved, registered_state, is_ready, CapacityState,
  Locked, ensure_healthy, entry_count, ensure_capacity, preflight_next_revision,
  preflight_revision_range, commit_revision, workspace, pool, reserved, registered, ready,
  duplicate_workspace, missing_entry, invalid_transition, arithmetic_overflow,
}

-- `reserve_workspace`, under the lock.
unfoldable pub reserve_workspace_entry : String → ℕ → ℕ → Locked CapacityEntryId
reserve_workspace_entry id cpu_millicores memory_bytes = do
  ensure_healthy
  ensure_capacity
  next_revision ← preflight_next_revision
  state ← get
  if contains_key (workspace id) state.workspaces then raise duplicate_workspace else do
    put (
        commit_revision next_revision (record state {
          workspaces =
              insert (workspace id)
                (record {
                  state = reserved;
                  cpu_millicores = cpu_millicores;
                  memory_bytes = memory_bytes;
                })
                state.workspaces;
        }))
    pure (workspace id)

-- One round of the loop of `reserve_pool_batch`.
unfoldable pub reserve_pool_entry : ℕ → ℕ → Locked CapacityEntryId
reserve_pool_entry cpu_millicores memory_bytes = do
  before ← get
  let pool_id = before.next_pool_id
  next_pool_id ← require (checked_add (2 ^ 64) before.next_pool_id 1) arithmetic_overflow
  put (record before { next_pool_id = next_pool_id })
  next_revision ← preflight_next_revision
  state ← get
  put (
      commit_revision next_revision (record state {
        pool_entries =
            insert (pool pool_id)
              (record {
                state = reserved;
                cpu_millicores = cpu_millicores;
                memory_bytes = memory_bytes;
              })
              state.pool_entries;
      }))
  pure (pool pool_id)

-- The loop. The reservations made before an error would be dropped with their vector; the preflight
-- leaves no error to happen.
unfoldable pub reserve_pool_entries : ℕ → ℕ → ℕ → Locked (List CapacityEntryId)
reserve_pool_entries zero cpu_millicores memory_bytes = pure []
reserve_pool_entries (suc count) cpu_millicores memory_bytes = do
  entry_id ← reserve_pool_entry cpu_millicores memory_bytes
  rest ← reserve_pool_entries count cpu_millicores memory_bytes
  pure (entry_id ∷ rest)

-- The room below the ceiling: `checked_sub`.
unfoldable pub room_left : CapacityState → Result CapacityError ℕ
room_left state = elim (entry_count state) [
  | err e ↦ err e
  | ok used ↦
      if leb used state.configured_workspace_ceiling
      then ok (state.configured_workspace_ceiling - used)
      else err arithmetic_overflow
]

-- `reserve_pool_batch`, under the lock.
unfoldable pub reserve_pool_batch_entries : ℕ → ℕ → ℕ → Locked (List CapacityEntryId)
reserve_pool_batch_entries requested cpu_millicores memory_bytes = do
  ensure_healthy
  state ← get
  room ← lift (room_left state)
  let count = min requested room
  if nat_eq count 0 then pure [] else do
    require (checked_add (2 ^ 64) state.next_pool_id count) arithmetic_overflow
    preflight_revision_range count
    reserve_pool_entries count cpu_millicores memory_bytes

-- `register_in_place`, under the lock.
unfoldable pub register_entry : CapacityEntryId → WorkspaceState → Locked (Unit {0})
register_entry entry_id new_state = do
  ensure_healthy
  before ← get
  existing ← require (lookup entry_id before.workspaces) missing_entry
  if not (is_reserved existing.state) then raise invalid_transition else do
    next_revision ← preflight_next_revision
    state ← get
    entry ← require (lookup entry_id state.workspaces) missing_entry
    put (
        commit_revision next_revision (record state {
          workspaces =
              insert entry_id (record entry { state = registered new_state }) state.workspaces;
        }))

-- `set_state`, under the lock.
unfoldable pub set_entry_state : CapacityEntryId → WorkspaceState → Locked (Unit {0})
set_entry_state entry_id new_state = do
  ensure_healthy
  before ← get
  existing ← require (lookup entry_id before.workspaces) missing_entry
  current ← require (registered_state existing.state) invalid_transition
  if current == new_state then pure tt else do
    next_revision ← preflight_next_revision
    state ← get
    entry ← require (lookup entry_id state.workspaces) missing_entry
    put (
        commit_revision next_revision (record state {
          workspaces =
              insert entry_id (record entry { state = registered new_state }) state.workspaces;
        }))

-- `ready_in_place`, under the lock.
unfoldable pub ready_entry : CapacityEntryId → Locked (Unit {0})
ready_entry entry_id = do
  ensure_healthy
  before ← get
  existing ← require (lookup entry_id before.pool_entries) missing_entry
  if is_ready existing.state then raise invalid_transition else do
    next_revision ← preflight_next_revision
    state ← get
    entry ← require (lookup entry_id state.pool_entries) missing_entry
    put (
        commit_revision next_revision (record state {
          pool_entries = insert entry_id (record entry { state = ready }) state.pool_entries;
        }))

-- `adopt_in_place`, under the lock: the pool entry becomes the workspace's entry.
unfoldable pub adopt_entry : CapacityEntryId → CapacityEntryId → WorkspaceState → Locked (Unit {0})
adopt_entry entry_id workspace_entry_id new_state = do
  ensure_healthy
  before ← get
  if contains_key workspace_entry_id before.workspaces then raise duplicate_workspace else do
    pool_entry ← require (lookup entry_id before.pool_entries) missing_entry
    if not (is_ready pool_entry.state) then raise invalid_transition else do
      next_revision ← preflight_next_revision
      state ← get
      entry ← require (lookup entry_id state.pool_entries) missing_entry
      put (
          commit_revision next_revision (record state {
            pool_entries = remove entry_id state.pool_entries;
            workspaces =
                insert workspace_entry_id
                  (record {
                    state = registered new_state;
                    cpu_millicores = entry.cpu_millicores;
                    memory_bytes = entry.memory_bytes;
                  })
                  state.workspaces;
          }))

-- What `release_entry` removes, and whether there was an entry.
unfoldable pub remove_entry : CapacityEntryId → CapacityState → Bool × CapacityState
remove_entry (workspace id) state = (
  contains_key (workspace id) state.workspaces,
  record state { workspaces = remove (workspace id) state.workspaces },
)
remove_entry (pool id) state = (
  contains_key (pool id) state.pool_entries,
  record state { pool_entries = remove (pool id) state.pool_entries },
)

-- `release_entry`, under the lock: whether the guard gives its entry up.
unfoldable pub release_locked : CapacityEntryId → Locked Bool
release_locked entry_id = do
  next_revision ← preflight_next_revision
  state ← get
  let (removed, state') = remove_entry entry_id state
  put (if removed then commit_revision next_revision state' else state')
  pure removed
