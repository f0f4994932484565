-- ===== src/Capacity/Invariant.antt =====
-- The invariant of the ledger of crates/ne-supervisor/src/capacity.rs, under the specification's edits.
use ne_enclave.Common.{ℕ, ◌+◌, ◌^◌, ◌≤◌, ◌<◌, ◌≡◌, none, some, arith}
use ne_enclave.Map.{lookup, insert, remove, Unique}
use ne_enclave.Map.Laws.{
  lookup-insert, lookup-remove, insert-Unique, remove-Unique, length-insert_new, length-insert_old,
  length-remove,
}
use ne_enclave.Capacity.State.{
  CapacityState, CapacityEntryId, workspace, pool, AccountedPoolMember, entry_eq, same_entry_iff,
}
use ne_enclave.Capacity.Edits.{
  used, Edit, reserve_workspace, reserve_pool, set_workspace, set_ready, adopt, drop_workspace,
  drop_pool, Edits, done, and_then,
}

pub record Inv (s : CapacityState) : Type 0 where
  pub unique_workspaces : Unique s.workspaces
  pub unique_pool : Unique s.pool_entries
  -- The ids that are still to be given out name no entry.
  pub fresh : (i : ℕ) → s.next_pool_id ≤ i → lookup (pool i) s.pool_entries ≡ none
  pub within : used s ≤ s.configured_workspace_ceiling
  pub ceiling_fits : s.configured_workspace_ceiling < 2 ^ 32
  pub revision_fits : s.revision < 2 ^ 64

module _ {s : CapacityState} (v : Inv s) where
  fresh-insert_old :
      (k : CapacityEntryId) (x y : AccountedPoolMember)
      → lookup k s.pool_entries ≡ some y
      → (i : ℕ) → s.next_pool_id ≤ i
      → lookup (pool i) (insert k x s.pool_entries) ≡ none
  fresh-insert_old k x y found i h =
      ground
        (arith, lookup-insert k (pool i) x s.pool_entries, same_entry_iff k (pool i), v.fresh i h)

  fresh-insert_new :
      (x : AccountedPoolMember) (i : ℕ)
      → s.next_pool_id + 1 ≤ i
      → lookup (pool i) (insert (pool s.next_pool_id) x s.pool_entries) ≡ none
  fresh-insert_new x i h = ground (
    arith,
    lookup-insert (pool s.next_pool_id) (pool i) x s.pool_entries,
    v.fresh i (omega arith),
  )

  fresh-remove :
      (k : CapacityEntryId) (i : ℕ)
      → s.next_pool_id ≤ i
      → lookup (pool i) (remove k s.pool_entries) ≡ none
  fresh-remove k i h =
      ground (arith, lookup-remove k (pool i) s.pool_entries v.unique_pool, v.fresh i h)

pub Edit-Inv : {s t : CapacityState} → Edit s t → Inv s → Inv t
Edit-Inv {s} (reserve_workspace id cpu memory o room new e) v = rw e (record {
  unique_workspaces = insert-Unique _ _ _ v.unique_workspaces;
  unique_pool = v.unique_pool;
  fresh = v.fresh;
  within = omega (arith, length-insert_new (workspace id) _ s.workspaces new);
  ceiling_fits = v.ceiling_fits;
  revision_fits = o.revision_fits;
})
Edit-Inv {s} (reserve_pool cpu memory o room fits e) v = rw e (record {
  unique_workspaces = v.unique_workspaces;
  unique_pool = insert-Unique _ _ _ v.unique_pool;
  fresh = fresh-insert_new v _;
  within = omega (
    arith,
    length-insert_new (pool s.next_pool_id) _ s.pool_entries (v.fresh s.next_pool_id (omega arith)),
  );
  ceiling_fits = v.ceiling_fits;
  revision_fits = o.revision_fits;
})
Edit-Inv {s} (set_workspace k x w o found e) v = rw e (record {
  unique_workspaces = insert-Unique _ _ _ v.unique_workspaces;
  unique_pool = v.unique_pool;
  fresh = v.fresh;
  within = omega (arith, length-insert_old k _ x s.workspaces found, v.within);
  ceiling_fits = v.ceiling_fits;
  revision_fits = o.revision_fits;
})
Edit-Inv {s} (set_ready k x o found was_reserved e) v = rw e (record {
  unique_workspaces = v.unique_workspaces;
  unique_pool = insert-Unique _ _ _ v.unique_pool;
  fresh = fresh-insert_old v k _ x found;
  within = omega (arith, length-insert_old k _ x s.pool_entries found, v.within);
  ceiling_fits = v.ceiling_fits;
  revision_fits = o.revision_fits;
})
Edit-Inv {s} (adopt k w x _ o new found is_ready e) v = rw e (record {
  unique_workspaces = insert-Unique _ _ _ v.unique_workspaces;
  unique_pool = remove-Unique _ _ v.unique_pool;
  fresh = fresh-remove v k;
  within = omega (
    arith,
    length-insert_new w _ s.workspaces new,
    length-remove k x s.pool_entries found,
    v.within,
  );
  ceiling_fits = v.ceiling_fits;
  revision_fits = o.revision_fits;
})
Edit-Inv {s} (drop_workspace k x o found e) v = rw e (record {
  unique_workspaces = remove-Unique _ _ v.unique_workspaces;
  unique_pool = v.unique_pool;
  fresh = v.fresh;
  within = omega (arith, length-remove k x s.workspaces found, v.within);
  ceiling_fits = v.ceiling_fits;
  revision_fits = o.revision_fits;
})
Edit-Inv {s} (drop_pool k x o found e) v = rw e (record {
  unique_workspaces = v.unique_workspaces;
  unique_pool = remove-Unique _ _ v.unique_pool;
  fresh = fresh-remove v k;
  within = omega (arith, length-remove k x s.pool_entries found, v.within);
  ceiling_fits = v.ceiling_fits;
  revision_fits = o.revision_fits;
})

pub Edits-Inv : {s t : CapacityState} → Edits s t → Inv s → Inv t
Edits-Inv done v = v
Edits-Inv (and_then e es) v = Edits-Inv es (Edit-Inv e v)
