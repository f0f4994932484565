-- ===== src/Capacity/Ownership/Histories.antt =====
-- Histories of guards of crates/ne-supervisor/src/capacity.rs, as the tasks of a supervisor interleave
-- them.
use ne_enclave.Common.{
  ℕ, ◌^◌, ◌≤◌, ◌<◌, ◌≡◌, refl, true, ◌⊎◌, arith, List, [], ◌∷◌, leb, inl, inr, Bool-cases,
}
use ne_enclave.Map.{lookup}
use ne_enclave.Capacity.State.{CapacityState, CapacityEntryId, workspace, pool, entry_eq, new}
use ne_enclave.Capacity.Guards.{fault_ledger}
use ne_enclave.Capacity.Ownership.{
  Guarded, entries_of, owners_of, IsOwned, step, run, GuardEvent, if_owned, reserves,
  reserves_batch, registers, sets, makes_ready, adopts, drops, fails_closed,
}
use ne_enclave.Capacity.Ownership.Changes.{faulted-IsOwned}
use ne_enclave.Protocol.Supervisor.{workspace_state_eq}
use ne_enclave.Capacity.Ownership.Preserved.{
  IsGuarded, register_in_place-IsOwned, set_guard_state-IsOwned, ready_in_place-IsOwned,
  adopt_in_place-IsOwned, reserve_workspace-IsOwned,
}
use ne_enclave.Capacity.Ownership.Release.{reserve_pool_batch-IsOwned, drop-IsOwned}
use ne_enclave.Capacity.History.{new-Inv}

owned_rule :
    (k : CapacityEntryId) (w t : Guarded)
    → IsGuarded w
    → (1 ≤ owners_of k w.owners → IsGuarded t)
    → IsGuarded (if_owned k w t)
owned_rule k w t v h = elim (Bool-cases (leb 1 (owners_of k w.owners))) [
  | inl alive ↦ rw alive (h (ground arith))
  | inr gone ↦ rw gone v
]

step-IsGuarded : (w : Guarded) (e : GuardEvent) → IsGuarded w → IsGuarded (step w e)
unfolding step fault_ledger
step-IsGuarded w (reserves id cpu memory) v =
    reserve_workspace-IsOwned w.ledger w.owners v id cpu memory
step-IsGuarded w (reserves_batch n cpu memory) v = reserve_pool_batch-IsOwned v n cpu memory
step-IsGuarded w (registers k state) v =
    owned_rule k w _ v λ owned. register_in_place-IsOwned w.ledger w.owners v k owned state
step-IsGuarded w (sets k state) v =
    owned_rule k w _ v λ owned. set_guard_state-IsOwned w.ledger w.owners v k owned state
step-IsGuarded w (makes_ready k) v =
    owned_rule k w _ v λ owned. ready_in_place-IsOwned w.ledger w.owners v k owned
step-IsGuarded w (adopts k id state) v =
    owned_rule k w _ v λ owned. adopt_in_place-IsOwned w.ledger w.owners v k owned id state
step-IsGuarded w (drops k) v = owned_rule k w _ v λ owned. drop-IsOwned v k owned
step-IsGuarded w fails_closed v = faulted-IsOwned v

run-IsGuarded : (w : Guarded) (es : List GuardEvent) → IsGuarded w → IsGuarded (run w es)
unfolding run
run-IsGuarded w [] v = v
run-IsGuarded w (e ∷ es) v = run-IsGuarded (step w e) es (step-IsGuarded w e v)

abbrev pub start : ℕ → Guarded
start ceiling = record { ledger = (new ceiling).state; owners = [] }

start-IsGuarded : (ceiling : ℕ) → ceiling < 2 ^ 32 → IsGuarded (start ceiling)
unfolding new lookup
start-IsGuarded ceiling h = record {
  inv = new-Inv ceiling h;
  pool_keys = λ id. refl;
  workspace_keys = λ i. refl;
  at_most = λ k. omega arith;
  exactly = λ k healthy. refl;
}

entries_of-le_one :
    {s : CapacityState} {owners : List CapacityEntryId}
    → IsOwned s owners
    → (k : CapacityEntryId) → entries_of k s ≤ 1
entries_of-le_one v (workspace id) = ground (arith, v.pool_keys id)
entries_of-le_one v (pool i) = ground (arith, v.workspace_keys i)

exact_or_faulted :
    (w : Guarded) (k : CapacityEntryId)
    → IsGuarded w
    → (w.ledger.faulted ≡ true) ⊎ (owners_of k w.owners ≡ entries_of k w.ledger)
exact_or_faulted w k v = elim (Bool-cases w.ledger.faulted) [
  | inl faulted ↦ inl faulted
  | inr healthy ↦ inr (v.exactly k healthy)
]

-- From a new ledger, whose ceiling fits 32 bits, whatever the tasks do with their guards in whatever
-- order: a live guard always has its entry, no entry has two guards, and the ledger is faulted or
-- every entry has its guard, so that no capacity is left behind by an operation that failed or by a
-- guard that was dropped.
pub run-IsOwned :
    (ceiling : ℕ) (es : List GuardEvent) (k : CapacityEntryId)
    → ceiling < 2 ^ 32
    → (owners_of k (run (start ceiling) es).owners ≤ entries_of k (run (start ceiling) es).ledger)
      × (entries_of k (run (start ceiling) es).ledger ≤ 1)
      × (((run (start ceiling) es).ledger.faulted ≡ true)
          ⊎ (owners_of k (run (start ceiling) es).owners
              ≡ entries_of k (run (start ceiling) es).ledger))
run-IsOwned ceiling es k h =
    let v = run-IsGuarded (start ceiling) es (start-IsGuarded ceiling h) in
    (v.at_most k, entries_of-le_one v k, exact_or_faulted (run (start ceiling) es) k v)
