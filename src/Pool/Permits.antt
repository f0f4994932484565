-- ===== src/Pool/Permits.antt =====
-- The permits of crates/ne-supervisor/src/pool.rs: what it means that the pool is within its bounds,
-- and that each permit holds its slot until it is released.
use ne_enclave.Common.{
  ℕ, zero, suc, ◌+◌, ◌≤◌, ◌≡◌, refl, Bool, true, false, arith, Option, none, some, List, [], ◌∷◌,
  ◌++◌, Result, ok, err, length, not, ◌||◌, nat_eq, All, if◌then◌else◌,
}
use ne_enclave.Capacity.State.{CapacityState, CapacityError, CapacityEntryId}
use ne_enclave.Capacity.Guards.{Guard, Handed, ready_in_place}
use ne_enclave.Pool.State.{
  WarmPoolConfig, ProvisionPermit, Instance, Completion, completed, rejects, dimension_mismatch,
  ready_permit, check_dimensions, make_ready,
}
use ne_enclave.Pool.Refill.{permits_of}
use ne_enclave.Pool.Interleaving.{PoolWorld, pick, pick_behind}

-- The slot of a permit is still counted.
abbrev pub Unreleased : ProvisionPermit → Type 0
Unreleased permit = permit.released ≡ false

pub record IsBounded (cfg : WarmPoolConfig) (w : PoolWorld) : Type 0 where
  pub same_cfg : w.pool.cfg ≡ cfg
  pub filled :
      length w.pool.members + length w.booting + length w.waiting + length w.rejected + w.forgotten
      ≤ cfg.target_size
  pub counted :
      w.pool.in_flight
      ≡ length w.booting + length w.waiting + length w.stowed + length w.rejected + w.forgotten
  pub capped : w.pool.in_flight ≤ cfg.max_in_flight
  pub booting_held : All Unreleased w.booting
  pub waiting_held : All (λ x. Unreleased x.1) w.waiting
  pub stowed_held : All Unreleased w.stowed
  pub rejected_held : All (λ r. Unreleased r.permit) w.rejected

-- What `pick` takes is gone from the rest.
pub record Picked {A : Type 0} (P : A → Type 0) (xs : List A) (x : A) (rest : List A) : Type 0 where
  pub size : length xs ≡ length rest + 1
  pub held : P x
  pub others_held : All P rest

pub pick_rule :
    {A : Type 0} (P : A → Type 0) (R : Option (A × List A) → Type 0) (i : ℕ) (xs : List A)
    → All P xs
    → R none
    → ((x : A) (rest : List A) → Picked P xs x rest → R (some (x, rest)))
    → R (pick i xs)
pick_rule P R i [] all nothing taken = nothing
pick_rule P R zero (x ∷ xs) all nothing taken =
    taken x xs (record { size = omega arith; held = all.0; others_held = all.1 })
pick_rule P R (suc i) (x ∷ xs) all nothing taken =
    pick_rule P (λ o. R (pick_behind x o)) i xs all.1 nothing
      λ y ys p. taken y (x ∷ ys) (record {
        size = omega (arith, p.size);
        held = p.held;
        others_held = (all.0, p.others_held);
      })

-- The permit that comes out of `make_ready` holds its slot as the one that went in.
unfoldable pub Keeps : ProvisionPermit → Completion → Type 0
Keeps permit (ok (member, permit'), ledger) = permit'.released ≡ permit.released
Keeps permit (err r, ledger) = r.permit.released ≡ permit.released

completed-Keeps :
    (instance : Instance) (permit : ProvisionPermit) (h : Handed)
    → Keeps permit (completed instance permit h)
unfolding Keeps
completed-Keeps instance permit (ok guard, old, ledger) = refl
completed-Keeps instance permit (err e, old, ledger) = refl

ready_permit-Keeps :
    (instance : Instance) (permit : ProvisionPermit) (ledger : CapacityState) (g : Option Guard)
    → Keeps permit (ready_permit instance permit ledger g)
unfolding Keeps
ready_permit-Keeps instance permit ledger none = refl
ready_permit-Keeps instance permit ledger (some guard) =
    completed-Keeps instance permit (ready_in_place guard ledger)

if_Keeps :
    (permit : ProvisionPermit) (b : Bool) (c d : Completion)
    → Keeps permit c
    → Keeps permit d
    → Keeps permit (if b then c else d)
if_Keeps permit true c d h k = h
if_Keeps permit false c d h k = k

check_dimensions-Keeps :
    (instance : Instance) (permit : ProvisionPermit) (ledger : CapacityState)
    (r : Result CapacityError (ℕ × ℕ))
    → Keeps permit (check_dimensions instance permit ledger r)
unfolding Keeps
check_dimensions-Keeps instance permit ledger (err e) = refl
check_dimensions-Keeps instance permit ledger (ok (cpu, memory)) =
    if_Keeps permit
      (not (nat_eq cpu permit.cpu_millicores) || not (nat_eq memory permit.memory_bytes))
      (rejects instance permit dimension_mismatch ledger)
      (ready_permit instance permit ledger permit.capacity) refl
      (ready_permit-Keeps instance permit ledger permit.capacity)

pub make_ready-Keeps :
    (instance : Instance) (permit : ProvisionPermit) (ledger : CapacityState)
    → Keeps permit (make_ready instance permit ledger)
unfolding make_ready
make_ready-Keeps instance permit ledger = check_dimensions-Keeps instance permit ledger _

pub length-permits_of :
    (cpu memory : ℕ) (ks : List CapacityEntryId) → length (permits_of cpu memory ks) ≡ length ks
length-permits_of cpu memory [] = refl
length-permits_of cpu memory (k ∷ ks) = omega (arith, length-permits_of cpu memory ks)

pub permits_of-held :
    (cpu memory : ℕ) (ks : List CapacityEntryId) (rest : List ProvisionPermit)
    → All Unreleased rest
    → All Unreleased (permits_of cpu memory ks ++ rest)
permits_of-held cpu memory [] rest h = h
permits_of-held cpu memory (k ∷ ks) rest h = (refl, permits_of-held cpu memory ks rest h)
