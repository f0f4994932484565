-- ===== src/Capacity/Adoption.antt =====
-- `adopt_in_place`, `reserve_workspace` and `release_entry` of crates/ne-supervisor/src/capacity.rs
-- where they succeed: what they leave in the ledger.
use ne_enclave.Common.{
  ℕ, ◌+◌, ◌^◌, ◌<◌, ◌≡◌, true, false, String, none, some, [], ◌∷◌, arith, ok, require, beq_refl,
}
use ne_enclave.Map.{Map, lookup, insert, remove}
use ne_enclave.Map.Laws.{lookup-insert, lookup-remove, length-insert_new, length-remove}
use ne_enclave.Protocol.Supervisor.{WorkspaceState}
use ne_enclave.Capacity.State.{
  CapacityState, CapacityEntryId, workspace, AccountedWorkspace, AccountedPoolMember, reserved,
  registered, ready, entry_eq, ensure_healthy, ensure_capacity, entry_count,
  preflight_next_revision,
}
use ne_enclave.Capacity.Admission.{
  reserve_workspace_entry, adopt_entry, release_locked, remove_entry,
}
use ne_enclave.Capacity.Edits.{used, IsOpen, with_workspace}
use ne_enclave.Capacity.Invariant.{Inv}
use ne_enclave.Capacity.Totals.{
  if_registered, total, cpu_in, memory_in, pool_cpu_in, pool_memory_in,
}

total-insert_new :
    {V : Type 0} (f : V → ℕ) (k : CapacityEntryId) (v : V) (m : Map CapacityEntryId V)
    → lookup k m ≡ none
    → total f (insert k v m) ≡ total f m + f v
unfolding total insert lookup
total-insert_new f k v [] h = omega arith
total-insert_new f k v ((j, w) ∷ m) h = ground (arith, total-insert_new f k v m)

total-remove :
    {V : Type 0} (f : V → ℕ) (k : CapacityEntryId) (v : V) (m : Map CapacityEntryId V)
    → lookup k m ≡ some v
    → total f (remove k m) + f v ≡ total f m
unfolding total remove lookup
total-remove f k v [] h = ground arith
total-remove f k v ((j, w) ∷ m) h = ground (arith, total-remove f k v m)

-- The workspace entry of an adopted member.
abbrev pub adopted : AccountedPoolMember → WorkspaceState → AccountedWorkspace
adopted v new_state = record {
  state = registered new_state;
  cpu_millicores = v.cpu_millicores;
  memory_bytes = v.memory_bytes;
}

abbrev pub after_adoption :
    CapacityEntryId
    → CapacityEntryId
    → AccountedPoolMember
    → WorkspaceState
    → CapacityState
    → CapacityState
after_adoption k w v new_state s =
    with_workspace (record s { pool_entries = remove k s.pool_entries }) w (adopted v new_state)

-- Adoption keeps what the ledger accounts for.
pub record Neutral (s t : CapacityState) : Type 0 where
  pub entries : used t ≡ used s
  pub cpu :
      cpu_in t.workspaces + pool_cpu_in t.pool_entries
      ≡ cpu_in s.workspaces + pool_cpu_in s.pool_entries
  pub memory :
      memory_in t.workspaces + pool_memory_in t.pool_entries
      ≡ memory_in s.workspaces + pool_memory_in s.pool_entries

module _ (k w : CapacityEntryId) (v : AccountedPoolMember) (new_state : WorkspaceState)
    (s : CapacityState) where
  adoption-Neutral :
      lookup w s.workspaces ≡ none
      → lookup k s.pool_entries ≡ some v
      → Neutral s (after_adoption k w v new_state s)
  adoption-Neutral new found = record {
    entries = omega (
      arith,
      length-insert_new w (adopted v new_state) s.workspaces new,
      length-remove k v s.pool_entries found,
    );
    cpu = omega (
      arith,
      total-insert_new (λ x. if_registered x x.cpu_millicores) w (adopted v new_state) s.workspaces
          new,
      total-remove (λ x. x.cpu_millicores) k v s.pool_entries found,
    );
    memory = omega (
      arith,
      total-insert_new (λ x. if_registered x x.memory_bytes) w (adopted v new_state) s.workspaces
          new,
      total-remove (λ x. x.memory_bytes) k v s.pool_entries found,
    );
  }

  -- Where the ledger takes changes, the workspace has no entry and the pool member is ready, the
  -- adoption succeeds: the member's entry is gone, the workspace is registered with the member's
  -- dimensions, and the entries, the CPU and the memory accounted for are as many as before.
  pub adopt_entry_lem :
      Inv s
      → IsOpen s
      → lookup w s.workspaces ≡ none
      → lookup k s.pool_entries ≡ some v
      → v.state ≡ ready
      → (adopt_entry k w new_state s ≡ (ok tt, after_adoption k w v new_state s))
        × Neutral s (after_adoption k w v new_state s)
        × (lookup w (after_adoption k w v new_state s).workspaces ≡ some (adopted v new_state))
        × (lookup k (after_adoption k w v new_state s).pool_entries ≡ none)
  unfolding adopt_entry ensure_healthy preflight_next_revision require
  adopt_entry_lem inv o new found booted = (
    ground arith,
    adoption-Neutral new found,
    ground (arith, lookup-insert w w (adopted v new_state) s.workspaces, beq_refl w),
    ground (arith, lookup-remove k k s.pool_entries inv.unique_pool, beq_refl k),
  )

module _ (id : String) (cpu memory : ℕ) (s : CapacityState) where
  abbrev pub entry : AccountedWorkspace
  entry = record { state = reserved; cpu_millicores = cpu; memory_bytes = memory }

  remove-insert :
      {V : Type 0} (k : CapacityEntryId) (v : V) (m : Map CapacityEntryId V)
      → lookup k m ≡ none
      → remove k (insert k v m) ≡ m
  unfolding lookup insert remove
  remove-insert k v [] h = ground (arith, beq_refl k)
  remove-insert k v ((j, w) ∷ m) h = ground (arith, remove-insert k v m)

  reserve_workspace_entry_lem :
      IsOpen s
      → used s < s.configured_workspace_ceiling
      → s.configured_workspace_ceiling < 2 ^ 32
      → lookup (workspace id) s.workspaces ≡ none
      → reserve_workspace_entry id cpu memory s
        ≡ (ok (workspace id), with_workspace s (workspace id) entry)
  unfolding reserve_workspace_entry ensure_healthy ensure_capacity entry_count
      preflight_next_revision
  reserve_workspace_entry_lem o room small new = ground arith

  release_lem :
      s.faulted ≡ false
      → s.revision + 2 < 2 ^ 64
      → lookup (workspace id) s.workspaces ≡ none
      → release_locked (workspace id) (with_workspace s (workspace id) entry)
        ≡ (ok true, record s { revision = s.revision + 2 })
  unfolding release_locked remove_entry preflight_next_revision
  release_lem healthy fits new = ground (
    arith,
    lookup-insert (workspace id) (workspace id) entry s.workspaces,
    beq_refl (workspace id),
    remove-insert (workspace id) entry s.workspaces new,
  )

  -- Where the ledger takes changes, its entries leave room below the ceiling, two revisions are left
  -- and the workspace has no entry, a reservation succeeds and adds the entry in the reserved state;
  -- releasing it then brings back the state from before, two revisions later.
  pub release-reserve_workspace :
      s.faulted ≡ false
      → s.revision + 2 < 2 ^ 64
      → used s < s.configured_workspace_ceiling
      → s.configured_workspace_ceiling < 2 ^ 32
      → lookup (workspace id) s.workspaces ≡ none
      → (reserve_workspace_entry id cpu memory s
          ≡ (ok (workspace id), with_workspace s (workspace id) entry))
        × (release_locked (workspace id) (reserve_workspace_entry id cpu memory s).1
            ≡ (ok true, record s { revision = s.revision + 2 }))
  release-reserve_workspace healthy fits room small new =
      let reserves =
        reserve_workspace_entry_lem (record { healthy = healthy; revision_fits = omega arith }) room
          small new in
      (reserves, rw reserves (release_lem healthy fits new))
