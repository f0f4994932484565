-- ===== src/Capacity/Ownership/Changes.antt =====
-- How the entries of the ledger of crates/ne-supervisor/src/capacity.rs and the guards that own them
-- change together.
use ne_enclave.Common.{
  ℕ, ◌+◌, ◌-◌, ◌≤◌, ◌≡◌, refl, true, String, arith, none, some, List, [], ◌∷◌, ◌==◌, if◌then◌else◌,
  sym, ◌∙◌,
}
use ne_enclave.Map.{lookup, remove}
use ne_enclave.Map.Laws.{lookup-insert, lookup-remove}
use ne_enclave.Capacity.State.{
  CapacityState, CapacityEntryId, workspace, pool, entry_eq, same_entry_iff, AccountedWorkspace,
  AccountedPoolMember,
}
use ne_enclave.Capacity.Edits.{with_workspace, with_pool_entry}
use ne_enclave.Capacity.Invariant.{Inv}
use ne_enclave.Capacity.History.{fault-Inv}
use ne_enclave.Capacity.Ownership.{entries_of, owners_of, without_one, IsOwned}

pub owners_of-without_one :
    (k j : CapacityEntryId) (ks : List CapacityEntryId)
    → 1 ≤ owners_of k ks
    → owners_of j (without_one k ks) ≡ owners_of j ks - (if k == j then 1 else 0)
owners_of-without_one k j [] h = absurd (omega arith)
owners_of-without_one k j (i ∷ ks) h = ground (
  arith,
  same_entry_iff k j,
  same_entry_iff i k,
  same_entry_iff i j,
  owners_of-without_one k j ks,
)

-- A guard that is taken and put back changes no count.
pub owners_of-put_back :
    (k j : CapacityEntryId) (ks : List CapacityEntryId)
    → 1 ≤ owners_of k ks
    → owners_of j (k ∷ without_one k ks) ≡ owners_of j ks
owners_of-put_back k j ks h = ground (arith, owners_of-without_one k j ks, same_entry_iff k j)

module _ {s : CapacityState} {owners : List CapacityEntryId} (v : IsOwned s owners) where
  pub put_back :
      (k : CapacityEntryId) → 1 ≤ owners_of k owners → IsOwned s (k ∷ without_one k owners)
  put_back k h = record {
    inv = v.inv;
    pool_keys = v.pool_keys;
    workspace_keys = v.workspace_keys;
    at_most = λ j. rw (owners_of-put_back k j owners h) (v.at_most j);
    exactly = λ j healthy. rw (owners_of-put_back k j owners h) (v.exactly j healthy);
  }

  pub faulted-IsOwned : IsOwned (record s { faulted = true }) owners
  faulted-IsOwned = record {
    inv = fault-Inv s v.inv;
    pool_keys = v.pool_keys;
    workspace_keys = v.workspace_keys;
    at_most = λ j. v.at_most j;
    exactly = λ j h. cc;
  }

  -- Entries and guards change together.
  pub balanced :
      (t : CapacityState) (owners' : List CapacityEntryId)
      → Inv t
      → ((id : String) → lookup (workspace id) t.pool_entries ≡ none)
      → ((i : ℕ) → lookup (pool i) t.workspaces ≡ none)
      → t.faulted ≡ s.faulted
      → ((j : CapacityEntryId)
          → entries_of j t + owners_of j owners ≡ entries_of j s + owners_of j owners')
      → IsOwned t owners'
  balanced t owners' inv pool_keys workspace_keys same change = record {
    inv = inv;
    pool_keys = pool_keys;
    workspace_keys = workspace_keys;
    at_most = λ j. omega (arith, change j, v.at_most j);
    exactly = λ j healthy. omega (arith, change j, v.exactly j (sym same ∙ healthy));
  }

  module _ (k : CapacityEntryId) where
    pub replaced_workspace :
        (x y : AccountedWorkspace)
        → lookup k s.workspaces ≡ some x
        → Inv (with_workspace s k y)
        → IsOwned (with_workspace s k y) owners
    replaced_workspace x y found inv =
        balanced (with_workspace s k y) owners inv v.pool_keys
          (λ i. ground (
            arith,
            v.workspace_keys i,
            lookup-insert k (pool i) y s.workspaces,
            same_entry_iff k (pool i),
          ))
          refl λ j. ground (arith, lookup-insert k j y s.workspaces, same_entry_iff k j)

    pub replaced_pool_entry :
        (x y : AccountedPoolMember)
        → lookup k s.pool_entries ≡ some x
        → Inv (with_pool_entry s k y)
        → IsOwned (with_pool_entry s k y) owners
    replaced_pool_entry x y found inv =
        balanced (with_pool_entry s k y) owners inv
          (λ i. ground (
            arith,
            v.pool_keys i,
            lookup-insert k (workspace i) y s.pool_entries,
            same_entry_iff k (workspace i),
          ))
          v.workspace_keys refl
          λ j. ground (arith, lookup-insert k j y s.pool_entries, same_entry_iff k j)

    -- The removal of the entry of `k`, with its guard.
    pub removed_workspace :
        (x : AccountedWorkspace)
        → 1 ≤ owners_of k owners
        → lookup k s.workspaces ≡ some x
        → Inv (record s { workspaces = remove k s.workspaces; revision = s.revision + 1 })
        → IsOwned
            (record s { workspaces = remove k s.workspaces; revision = s.revision + 1 })
            (without_one k owners)
    removed_workspace x owned found inv =
        balanced _ (without_one k owners) inv v.pool_keys
          (λ i. ground (
            arith,
            v.workspace_keys i,
            lookup-remove k (pool i) s.workspaces v.inv.unique_workspaces,
          ))
          refl
          λ j. ground (
            arith,
            lookup-remove k j s.workspaces v.inv.unique_workspaces,
            same_entry_iff k j,
            owners_of-without_one k j owners,
          )

    pub removed_pool_entry :
        (x : AccountedPoolMember)
        → 1 ≤ owners_of k owners
        → lookup k s.pool_entries ≡ some x
        → Inv (record s { pool_entries = remove k s.pool_entries; revision = s.revision + 1 })
        → IsOwned
            (record s { pool_entries = remove k s.pool_entries; revision = s.revision + 1 })
            (without_one k owners)
    removed_pool_entry x owned found inv =
        balanced _ (without_one k owners) inv
          (λ i.
            ground (
              arith,
              v.pool_keys i,
              lookup-remove k (workspace i) s.pool_entries v.inv.unique_pool,
            ))
          v.workspace_keys refl
          λ j. ground (
            arith,
            lookup-remove k j s.pool_entries v.inv.unique_pool,
            same_entry_iff k j,
            owners_of-without_one k j owners,
          )

  pub added_workspace :
      (id : String) (y : AccountedWorkspace)
      → lookup (workspace id) s.workspaces ≡ none
      → Inv (with_workspace s (workspace id) y)
      → IsOwned (with_workspace s (workspace id) y) (workspace id ∷ owners)
  added_workspace id y free inv =
      balanced _ (workspace id ∷ owners) inv v.pool_keys
        (λ i.
          ground (arith, v.workspace_keys i, lookup-insert (workspace id) (pool i) y s.workspaces))
        refl
        λ j.
          ground
            (arith, lookup-insert (workspace id) j y s.workspaces, same_entry_iff (workspace id) j)

  pub added_pool_entry :
      (y : AccountedPoolMember)
      → Inv
          (with_pool_entry (record s { next_pool_id = s.next_pool_id + 1 }) (pool s.next_pool_id) y)
      → IsOwned
          (with_pool_entry (record s { next_pool_id = s.next_pool_id + 1 }) (pool s.next_pool_id) y)
          (pool s.next_pool_id ∷ owners)
  added_pool_entry y inv =
      balanced _ (pool s.next_pool_id ∷ owners) inv
        (λ id. ground (
          arith,
          v.pool_keys id,
          lookup-insert (pool s.next_pool_id) (workspace id) y s.pool_entries,
        ))
        v.workspace_keys refl
        λ j. ground (
          arith,
          lookup-insert (pool s.next_pool_id) j y s.pool_entries,
          same_entry_iff (pool s.next_pool_id) j,
          v.inv.fresh s.next_pool_id (omega arith),
        )

  -- An adoption: the entry of `k` becomes that of the workspace.
  pub adopted_entry :
      (k : CapacityEntryId) (id : String) (x : AccountedPoolMember) (y : AccountedWorkspace)
      → 1 ≤ owners_of k owners
      → lookup (workspace id) s.workspaces ≡ none
      → lookup k s.pool_entries ≡ some x
      → Inv (with_workspace (record s { pool_entries = remove k s.pool_entries }) (workspace id) y)
      → IsOwned
          (with_workspace (record s { pool_entries = remove k s.pool_entries }) (workspace id) y)
          (workspace id ∷ without_one k owners)
  adopted_entry k id x y owned free found inv =
      balanced _ (workspace id ∷ without_one k owners) inv
        (λ i.
          ground
            (arith, v.pool_keys i, lookup-remove k (workspace i) s.pool_entries v.inv.unique_pool))
        (λ i.
          ground (arith, v.workspace_keys i, lookup-insert (workspace id) (pool i) y s.workspaces))
        refl
        λ j. ground (
          arith,
          lookup-remove k j s.pool_entries v.inv.unique_pool,
          lookup-insert (workspace id) j y s.workspaces,
          same_entry_iff (workspace id) j,
          same_entry_iff k j,
          owners_of-without_one k j owners,
        )
