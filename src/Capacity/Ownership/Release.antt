-- ===== src/Capacity/Ownership/Release.antt =====
-- The batch of a refill and the dropping of guards, of crates/ne-supervisor/src/capacity.rs: entries
-- come and go with their guards.
use ne_enclave.Common.{
  ℕ, zero, suc, ◌+◌, ◌^◌, ◌≤◌, ◌≡◌, refl, true, false, String, arith, some, List, [], ◌∷◌, ◌++◌,
  inl, inr, Bool-cases, Option-cases, ltb, subst,
}
use ne_enclave.Map.{lookup}
use ne_enclave.Capacity.State.{
  CapacityState, CapacityEntryId, workspace, pool, entry_eq, AccountedWorkspace,
  AccountedPoolMember,
}
use ne_enclave.Capacity.Edits.{IsOpen, drop_workspace, drop_pool}
use ne_enclave.Capacity.Invariant.{Edit-Inv}
use ne_enclave.Capacity.Guards.{release_entry}
use ne_enclave.Capacity.Admission.{reserve_pool_batch_entries}
use ne_enclave.Capacity.Batch.{
  Fits, after_one, after_batch, ids_from, batch_size, after_one-Edit, after_one-Fits, batch_cases,
}
use ne_enclave.Capacity.Ownership.{owners_of, without_one, IsOwned, add_owners}
use ne_enclave.Capacity.Ownership.Changes.{
  faulted-IsOwned, removed_workspace, removed_pool_entry, added_pool_entry,
}
use ne_enclave.Capacity.Admission.{release_locked, remove_entry}
use ne_enclave.Capacity.State.{preflight_next_revision}
use ne_enclave.Protocol.Supervisor.{workspace_state_eq}
use ne_enclave.Capacity.Dropping.{release_faulted, release_overflow}
use ne_enclave.Capacity.Ownership.Preserved.{IsGuarded, forgotten}

-- The loop of a batch puts its ids behind those that it has, so the counts of the two orders agree.
owners_of-append :
    (k : CapacityEntryId) (xs ys : List CapacityEntryId)
    → owners_of k (xs ++ ys) ≡ owners_of k xs + owners_of k ys
owners_of-append k [] ys = omega arith
owners_of-append k (x ∷ xs) ys = ground (arith, owners_of-append k xs ys)

reordered :
    {s : CapacityState} {xs ys : List CapacityEntryId}
    → ((k : CapacityEntryId) → owners_of k ys ≡ owners_of k xs)
    → IsOwned s xs
    → IsOwned s ys
reordered same v = record {
  inv = v.inv;
  pool_keys = v.pool_keys;
  workspace_keys = v.workspace_keys;
  at_most = λ j. rw (same j) (v.at_most j);
  exactly = λ j healthy. rw (same j) (v.exactly j healthy);
}

module _ (cpu memory : ℕ) where
  after_batch-IsOwned :
      (count : ℕ) (s : CapacityState) (owners : List CapacityEntryId)
      → IsOwned s owners
      → Fits count s
      → IsOwned (after_batch cpu memory count s) (ids_from s.next_pool_id count ++ owners)
  after_batch-IsOwned zero s owners v f = v
  after_batch-IsOwned (suc count) s owners v f =
      let e = after_one-Edit cpu memory f in
      reordered
        (λ k. ground (
          arith,
          owners_of-append k (ids_from (s.next_pool_id + 1) count) owners,
          owners_of-append k (ids_from (s.next_pool_id + 1) count) (pool s.next_pool_id ∷ owners),
        ))
        (after_batch-IsOwned count (after_one cpu memory s) (pool s.next_pool_id ∷ owners)
          (added_pool_entry v _ (Edit-Inv e v.inv)) (after_one-Fits cpu memory count s v.inv f))

module _ {s : CapacityState} {owners : List CapacityEntryId} (v : IsOwned s owners) where
  pub reserve_pool_batch-IsOwned :
      (n cpu memory : ℕ) → IsGuarded (add_owners owners (reserve_pool_batch_entries n cpu memory s))
  reserve_pool_batch-IsOwned n cpu memory =
      batch_cases n cpu memory s v.inv (λ x. IsGuarded (add_owners owners x)) (λ _. v) (λ _. v)
        (λ _. faulted-IsOwned v) (λ _ _. v)
        (after_batch-IsOwned cpu memory (batch_size n s) s owners v)

  -- An owned entry of a ledger that takes changes is there.
  workspace_present :
      (id : String)
      → 1 ≤ owners_of (workspace id) owners
      → s.faulted ≡ false
      → (x : AccountedWorkspace) × (lookup (workspace id) s.workspaces ≡ some x)
  workspace_present id owned healthy = elim (Option-cases (lookup (workspace id) s.workspaces)) [
    | inl gone ↦ absurd (ground (arith, v.exactly (workspace id) healthy, v.pool_keys id))
    | inr found ↦ found
  ]

  pool_entry_present :
      (i : ℕ)
      → 1 ≤ owners_of (pool i) owners
      → s.faulted ≡ false
      → (x : AccountedPoolMember) × (lookup (pool i) s.pool_entries ≡ some x)
  pool_entry_present i owned healthy = elim (Option-cases (lookup (pool i) s.pool_entries)) [
    | inl gone ↦ absurd (ground (arith, v.exactly (pool i) healthy, v.workspace_keys i))
    | inr found ↦ found
  ]

  -- Where the ledger takes changes, a drop removes the entry of its guard.
  drop_open :
      (k : CapacityEntryId)
      → 1 ≤ owners_of k owners
      → IsOpen s
      → IsOwned (release_entry (some k) s) (without_one k owners)
  unfolding release_entry release_locked remove_entry preflight_next_revision
  drop_open (workspace id) owned o =
      let (x, found) = workspace_present id owned o.healthy in
      subst (λ t. IsOwned t (without_one (workspace id) owners)) (ground arith)
        (removed_workspace v (workspace id) x owned found
          (Edit-Inv (drop_workspace (workspace id) x o found refl) v.inv))
  drop_open (pool i) owned o =
      let (x, found) = pool_entry_present i owned o.healthy in
      subst (λ t. IsOwned t (without_one (pool i) owners)) (ground arith)
        (removed_pool_entry v (pool i) x owned found
          (Edit-Inv (drop_pool (pool i) x o found refl) v.inv))

  pub drop-IsOwned :
      (k : CapacityEntryId)
      → 1 ≤ owners_of k owners
      → IsOwned (release_entry (some k) s) (without_one k owners)
  drop-IsOwned k owned = elim (Bool-cases s.faulted) [
    | inl h ↦ rw (release_faulted k s h) (forgotten s owners v k owned h)
    | inr h ↦ elim (Bool-cases (ltb (s.revision + 1) (2 ^ 64))) [
      | inl fits ↦ drop_open k owned (record { healthy = h; revision_fits = ground arith })
      | inr full ↦
          rw (release_overflow k s h full)
            (forgotten (record s { faulted = true }) owners (faulted-IsOwned v) k owned refl)
    ]
  ]
