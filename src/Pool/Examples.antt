-- ===== src/Pool/Examples.antt =====
-- A concrete warm pool of crates/ne-supervisor/src/pool.rs.
use ne_enclave.Common.{◌+◌, ◌≤◌, ◌≡◌, refl, true, false, none, List, [], ◌∷◌, ok, length, arith}
use ne_enclave.Protocol.Supervisor.{running}
use ne_enclave.Capacity.State.{CapacityState, new}
use ne_enclave.Capacity.Batch.{ids_from, after_batch}
use ne_enclave.Capacity.Invariant.{Inv}
use ne_enclave.Capacity.History.{new-Inv}
use ne_enclave.Pool.State.{WarmPoolConfig, WarmPool, Instance, reserve_provisions}
use ne_enclave.Pool.Refill.{permits_of, reserve_provisions_lem}
use ne_enclave.Pool.Interleaving.{
  PoolWorld, PoolEvent, refills, boots, fails, pushes, releases, pops, run, start,
}
use ne_enclave.Pool.Histories.{run_within_target}

abbrev cfg : WarmPoolConfig
cfg = record { tier_name = "small"; base_snapshot_id = "base"; target_size = 3; max_in_flight = 2 }

abbrev ledger : CapacityState
ledger = record {
  revision = 0;
  faulted = false;
  configured_workspace_ceiling = 4;
  next_pool_id = 0;
  workspaces = [];
  pool_entries = [];
}

ledger-Inv : Inv ledger
unfolding new
ledger-Inv = new-Inv 4 (omega arith)

abbrev empty_pool : WarmPool
empty_pool = record { cfg = cfg; members = []; in_flight = 0 }

reserve_provisions_lem_example : reserve_provisions 1_000 512 empty_pool ledger ≡ (
  ok (permits_of 1_000 512 (ids_from 0 2)),
  record empty_pool { in_flight = 2 },
  after_batch 1_000 512 2 ledger,
)
reserve_provisions_lem_example =
    reserve_provisions_lem 1_000 512 empty_pool ledger ledger-Inv refl (omega arith) (omega arith)
      (omega arith)

abbrev booted : Instance
booted = record {
  workspace_id = "pool-0";
  boot_id = "b0";
  lifecycle_state = running;
  network_slot = none;
  vcpu_count = 1;
  mem_size_mib = 1;
  rootfs_read_only = true;
}

-- Two refills, one boot that succeeds and one that fails, with a checkout in between.
abbrev events : List PoolEvent
events =
    refills 1_000 1_048_576
    ∷ boots 0 booted
    ∷ refills 1_000 1_048_576
    ∷ pushes 0
    ∷ releases 0
    ∷ fails 0
    ∷ pops
    ∷ []

abbrev world : PoolWorld
world = run (start cfg ledger) events

run_within_target_example :
    (length world.pool.members + length world.booting + length world.waiting + length world.rejected
      ≤ 3)
    × (world.pool.in_flight ≤ 2)
    × (world.pool.in_flight
        ≡ length world.booting
          + length world.waiting
          + length world.stowed
          + length world.rejected
          + world.forgotten)
run_within_target_example = run_within_target cfg (omega arith) ledger events
