-- ===== src/Capacity/Examples.antt =====
-- Concrete ledgers of crates/ne-supervisor/src/capacity.rs, and the theorems at them.
use ne_enclave.Common.{
  ◌≤◌, ◌⊎◌, ◌≡◌, refl, true, false, none, some, List, [], ◌∷◌, ok, arith, require, subst,
}
use ne_enclave.Map.{lookup, insert}
use ne_enclave.Protocol.Profile.{standard}
use ne_enclave.Protocol.Supervisor.{running}
use ne_enclave.Capacity.State.{
  CapacityState, AccountedPoolMember, workspace, pool, reserved, registered, ready, entry_eq, new,
  ensure_healthy, entry_count, ensure_capacity, preflight_next_revision, preflight_revision_range,
}
use ne_enclave.Capacity.Admission.{
  reserve_workspace_entry, reserve_pool_entry, reserve_pool_entries, room_left,
  reserve_pool_batch_entries, register_entry, ready_entry, adopt_entry, set_entry_state,
  release_locked,
}
use ne_enclave.Capacity.Ownership
use ne_enclave.Capacity.Ownership.{Guarded, GuardEvent, owners_of, entries_of}
use ne_enclave.Capacity.Ownership.Histories.{start, run-IsOwned}
use ne_enclave.Capacity.Edits.{used, IsOpen, with_workspace}
use ne_enclave.Capacity.Totals.{total}
use ne_enclave.Capacity.Inventory.{snapshot_locked}
use ne_enclave.Capacity.Reports.{WithinLimits, Reports, snapshot_locked-Reports}
use ne_enclave.Protocol.Fleet.{RunnerCapacity}
use ne_enclave.Capacity.Adoption.{
  Neutral, adopted, after_adoption, adopt_entry_lem, entry, release-reserve_workspace,
}
use ne_enclave.Capacity.Invariant.{Inv}
use ne_enclave.Capacity.Stepping.{Stepped, refusal}
use ne_enclave.Capacity.Steps.{step-Stepped}
use ne_enclave.Capacity.History.{
  adopts, Call, step, run, reserves, reserves_batch, registers, makes_ready, sets, run-Inv, new-Inv,
  run_within_ceiling, revision-run,
}

-- One registered workspace, one pool member that is ready and one that still boots.
abbrev calls : List Call
calls =
    reserves "a" 2_000 1_024
    ∷ registers (workspace "a") running
    ∷ reserves_batch 2 1_000 512
    ∷ makes_ready (pool 0)
    ∷ []

abbrev busy : CapacityState
busy = record {
  revision = 5;
  faulted = false;
  configured_workspace_ceiling = 5;
  next_pool_id = 2;
  workspaces =
      (
        workspace "a",
        record { state = registered running; cpu_millicores = 2_000; memory_bytes = 1_024 },
      )
      ∷ [];
  pool_entries =
      (pool 0, record { state = ready; cpu_millicores = 1_000; memory_bytes = 512 })
      ∷ (pool 1, record { state = reserved; cpu_millicores = 1_000; memory_bytes = 512 })
      ∷ [];
}

busy_history : run (new 5).state calls ≡ busy
unfolding run step new reserve_workspace_entry register_entry reserve_pool_batch_entries
    reserve_pool_entries reserve_pool_entry room_left ready_entry ensure_healthy ensure_capacity
    entry_count preflight_next_revision preflight_revision_range require lookup insert
busy_history = refl

busy-Inv : Inv busy
unfolding new
busy-Inv = subst Inv busy_history (run-Inv (new 5).state calls (new-Inv 5 (omega arith)))

run_within_ceiling_example : Inv (run (new 5).state calls) × (used (run (new 5).state calls) ≤ 5)
run_within_ceiling_example = run_within_ceiling 5 calls (omega arith)

-- Setting the state that a workspace is in takes no revision.
same_state_revision : (run busy (sets (workspace "a") running ∷ [])).revision ≡ 5
unfolding run step set_entry_state ensure_healthy require lookup
same_state_revision = refl

revision-run_example :
    ((run busy (sets (workspace "a") running ∷ [])).workspaces ≡ busy.workspaces)
    × ((run busy (sets (workspace "a") running ∷ [])).pool_entries ≡ busy.pool_entries)
revision-run_example =
    revision-run busy (sets (workspace "a") running ∷ []) busy-Inv same_state_revision

step-Stepped_example :
    Stepped busy
      (adopts (pool 0) (workspace "b") running)
      (refusal busy (adopts (pool 0) (workspace "b") running))
      (step busy (adopts (pool 0) (workspace "b") running))
step-Stepped_example = step-Stepped busy (adopts (pool 0) (workspace "b") running) busy-Inv

busy-IsOpen : IsOpen busy
busy-IsOpen = record { healthy = refl; revision_fits = omega arith }

abbrev booted : AccountedPoolMember
booted = record { state = ready; cpu_millicores = 1_000; memory_bytes = 512 }

no_entry : lookup (workspace "b") busy.workspaces ≡ none
unfolding lookup
no_entry = refl

has_booted : lookup (pool 0) busy.pool_entries ≡ some booted
unfolding lookup
has_booted = refl

adopt_entry_lem_example :
    (adopt_entry (pool 0) (workspace "b") running busy
      ≡ (ok tt, after_adoption (pool 0) (workspace "b") booted running busy))
    × Neutral busy (after_adoption (pool 0) (workspace "b") booted running busy)
    × (lookup
          (workspace "b")
          (after_adoption (pool 0) (workspace "b") booted running busy).workspaces
        ≡ some (adopted booted running))
    × (lookup (pool 0) (after_adoption (pool 0) (workspace "b") booted running busy).pool_entries
        ≡ none)
adopt_entry_lem_example =
    adopt_entry_lem (pool 0) (workspace "b") booted running busy busy-Inv busy-IsOpen no_entry
      has_booted refl

release-reserve_workspace_example :
    (reserve_workspace_entry "b" 1_000 512 busy
      ≡ (ok (workspace "b"), with_workspace busy (workspace "b") (entry "b" 1_000 512 busy)))
    × (release_locked (workspace "b") (reserve_workspace_entry "b" 1_000 512 busy).1
        ≡ (ok true, record busy { revision = 7 }))
release-reserve_workspace_example =
    release-reserve_workspace "b" 1_000 512 busy refl (omega arith) (omega arith) (omega arith)
      no_entry

busy-WithinLimits : WithinLimits busy
unfolding total
busy-WithinLimits = record { ceiling = omega arith; cpu = omega arith; memory = omega arith }

snapshot_locked-Reports_example :
    (r : RunnerCapacity) × (snapshot_locked standard busy ≡ ok r) × Reports standard busy r
snapshot_locked-Reports_example =
    snapshot_locked-Reports standard busy busy-Inv busy-WithinLimits refl

-- A guard that is dropped twice is dropped once, and a batch beside it.
abbrev guard_events : List GuardEvent
guard_events =
    GuardEvent.reserves "a" 2_000 1_024
    ∷ GuardEvent.registers (workspace "a") running
    ∷ GuardEvent.reserves_batch 2 1_000 512
    ∷ GuardEvent.drops (workspace "a")
    ∷ GuardEvent.drops (workspace "a")
    ∷ []

abbrev guarded : Guarded
guarded = Ownership.run (start 5) guard_events

run-IsOwned_example :
    (owners_of (pool 0) guarded.owners ≤ entries_of (pool 0) guarded.ledger)
    × (entries_of (pool 0) guarded.ledger ≤ 1)
    × ((guarded.ledger.faulted ≡ true)
        ⊎ (owners_of (pool 0) guarded.owners ≡ entries_of (pool 0) guarded.ledger))
run-IsOwned_example = run-IsOwned 5 guard_events (pool 0) (omega arith)
