-- ===== src/Capacity/Ownership.antt =====
-- The guards of crates/ne-supervisor/src/capacity.rs against the entries of its ledger: who owns what,
-- under any interleaving of the tasks that hold guards.
pub mod Changes
pub mod Preserved
pub mod Release
pub mod Histories
use ne_enclave.Common.{
  ℕ, zero, suc, ◌+◌, ◌-◌, ◌^◌, ◌≤◌, ◌<◌, ◌≡◌, refl, Bool, true, false, String, arith, Option, none,
  some, List, [], ◌∷◌, ◌++◌, Result, ok, err, leb, ◌==◌, if◌then◌else◌, inl, inr, Bool-cases, subst,
  sym, beq_refl, ◌∙◌,
}
use ne_enclave.Map.{Map, lookup, contains_key, insert, remove, Unique}
use ne_enclave.Map.Laws.{lookup-insert, lookup-remove}
use ne_enclave.Protocol.Supervisor.{WorkspaceState}
use ne_enclave.Capacity.State.{
  CapacityState, CapacityError, CapacityEntryId, workspace, pool, entry_eq, same_entry_iff, new,
  AccountedWorkspace, AccountedPoolMember,
}
use ne_enclave.Capacity.Edits.{
  Edit, IsOpen, with_workspace, with_pool_entry, reserve_workspace, set_workspace, set_ready, adopt,
  drop_workspace, drop_pool,
}
use ne_enclave.Capacity.Invariant.{Inv, Edit-Inv}
use ne_enclave.Capacity.History.{fault-Inv}
use ne_enclave.Capacity.Rules.{healthy_rule, room_rule, revision_rule, option_rule, if_rule}
use ne_enclave.Capacity.Guards.{
  Guard, Handed, register_in_place, set_guard_state, ready_in_place, adopt_in_place, release_entry,
  fault_ledger,
}
use ne_enclave.Capacity.Admission.{reserve_workspace_entry, reserve_pool_batch_entries}

-- The ledger, and the entry ids that live guards own.
pub record Guarded : Type 0 where
  pub ledger : CapacityState
  pub owners : List CapacityEntryId

-- How many entries the ledger has under this id, in its two maps.
abbrev pub present : {V : Type 0} → CapacityEntryId → Map CapacityEntryId V → ℕ
present k m = if contains_key k m then 1 else 0

abbrev pub entries_of : CapacityEntryId → CapacityState → ℕ
entries_of k s = present k s.workspaces + present k s.pool_entries

abbrev pub owners_of : CapacityEntryId → List CapacityEntryId → ℕ
owners_of k [] = 0
owners_of k (j ∷ js) = (if j == k then 1 else 0) + owners_of k js

abbrev pub without_one : CapacityEntryId → List CapacityEntryId → List CapacityEntryId
without_one k [] = []
without_one k (j ∷ js) = if j == k then js else j ∷ without_one k js

pub data GuardEvent : Type 0 where
  reserves : String → ℕ → ℕ → GuardEvent
  reserves_batch : ℕ → ℕ → ℕ → GuardEvent
  registers sets : CapacityEntryId → WorkspaceState → GuardEvent
  makes_ready : CapacityEntryId → GuardEvent
  adopts : CapacityEntryId → String → WorkspaceState → GuardEvent
  drops : CapacityEntryId → GuardEvent
  fails_closed : GuardEvent

abbrev pub add_owner :
    List CapacityEntryId → Result CapacityError CapacityEntryId × CapacityState → Guarded
add_owner owners (ok k, s) = record { ledger = s; owners = k ∷ owners }
add_owner owners (err e, s) = record { ledger = s; owners = owners }

abbrev pub add_owners :
    List CapacityEntryId → Result CapacityError (List CapacityEntryId) × CapacityState → Guarded
add_owners owners (ok ks, s) = record { ledger = s; owners = ks ++ owners }
add_owners owners (err e, s) = record { ledger = s; owners = owners }

-- The guard of `k` is used up, and what is left of it and the new guard are kept.
abbrev pub own : Guard → List CapacityEntryId → List CapacityEntryId
own none ks = ks
own (some k) ks = k ∷ ks

abbrev pub hand_on : CapacityEntryId → List CapacityEntryId → Handed → Guarded
hand_on k owners (ok g, old, s) = record {
  ledger = s;
  owners = own g (own old (without_one k owners));
}
hand_on k owners (err e, old, s) = record { ledger = s; owners = own old (without_one k owners) }

-- A guard acts only where it is alive.
abbrev pub if_owned : CapacityEntryId → Guarded → Guarded → Guarded
if_owned k w t = if leb 1 (owners_of k w.owners) then t else w

unfoldable pub step : Guarded → GuardEvent → Guarded
step w (reserves id cpu memory) =
    add_owner w.owners (reserve_workspace_entry id cpu memory w.ledger)
step w (reserves_batch n cpu memory) =
    add_owners w.owners (reserve_pool_batch_entries n cpu memory w.ledger)
step w (registers k state) =
    if_owned k w (hand_on k w.owners (register_in_place (some k) state w.ledger))
step w (sets k state) =
    if_owned k w (record w { ledger = (set_guard_state (some k) state w.ledger).1 })
step w (makes_ready k) = if_owned k w (hand_on k w.owners (ready_in_place (some k) w.ledger))
step w (adopts k id state) =
    if_owned k w (hand_on k w.owners (adopt_in_place (some k) id state w.ledger))
step w (drops k) =
    if_owned k w
      (record { ledger = release_entry (some k) w.ledger; owners = without_one k w.owners })
step w fails_closed = record w { ledger = fault_ledger w.ledger }

unfoldable pub run : Guarded → List GuardEvent → Guarded
run w [] = w
run w (e ∷ es) = run (step w e) es

-- While the ledger takes changes, each entry has one guard, and each guard its entry; no guard is
-- ever without its entry. Each of the two maps has keys of its kind only.
pub record IsOwned (s : CapacityState) (owners : List CapacityEntryId) : Type 0 where
  pub inv : Inv s
  pub pool_keys : (id : String) → lookup (workspace id) s.pool_entries ≡ none
  pub workspace_keys : (i : ℕ) → lookup (pool i) s.workspaces ≡ none
  pub at_most : (k : CapacityEntryId) → owners_of k owners ≤ entries_of k s
  pub exactly : (k : CapacityEntryId) → s.faulted ≡ false → owners_of k owners ≡ entries_of k s
