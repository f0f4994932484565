-- ===== src/Pool/Interleaving.antt =====
-- The tasks around the pool of crates/ne-supervisor/src/pool.rs: refills, provisions at each point
-- where another task may come in between, and the checkout of members.
use ne_enclave.Common.{
  ℕ, zero, suc, ◌+◌, Bool, true, false, Option, none, some, List, [], ◌∷◌, Result, ok, err, ◌++◌,
}
use ne_enclave.Capacity.State.{CapacityState, CapacityError}
use ne_enclave.Pool.State.{
  WarmPool, WarmPoolConfig, ProvisionPermit, PoolMember, Instance, RejectedPoolProvision,
  Completion, new, reserve_provisions, make_ready, push_back, release_permit, drop_permit, pop,
  drain, teardown_rejected,
}

-- The pool, the ledger, and the permits by where their tasks stand.
pub record PoolWorld : Type 0 where
  pub pool : WarmPool
  pub ledger : CapacityState
  -- Booting; ready and waiting for the lock of the members; stowed, the slot not released yet;
  -- rejected, the process not reaped yet; and forgotten, since its exit could not be confirmed.
  pub booting : List ProvisionPermit
  pub waiting : List (PoolMember × ProvisionPermit)
  pub stowed : List ProvisionPermit
  pub rejected : List RejectedPoolProvision
  pub forgotten : ℕ

pub data PoolEvent : Type 0 where
  refills : ℕ → ℕ → PoolEvent
  -- The task at this place of its list goes on.
  boots : ℕ → Instance → PoolEvent
  fails : ℕ → PoolEvent
  pushes releases : ℕ → PoolEvent
  tears_down : ℕ → Bool → PoolEvent
  pops drains : PoolEvent
  -- Other users of the ledger leave it in this state.
  others : CapacityState → PoolEvent

-- The element at a place, and the others.
abbrev pub pick_behind {ℓ} : {A : Type ℓ} → A → Option (A × List A) → Option (A × List A)
pick_behind x none = none
pick_behind x (some (y, ys)) = some (y, x ∷ ys)

abbrev pub pick {ℓ} : {A : Type ℓ} → ℕ → List A → Option (A × List A)
pick i [] = none
pick zero (x ∷ xs) = some (x, xs)
pick (suc i) (x ∷ xs) = pick_behind x (pick i xs)

-- Where no task stands at the place, nothing happens.
abbrev pub at_place {ℓ} :
    {A : Type ℓ} → Option (A × List A) → PoolWorld → (A → List A → PoolWorld) → PoolWorld
at_place none w go = w
at_place (some (x, rest)) w go = go x rest

abbrev pub refilled :
    PoolWorld → Result CapacityError (List ProvisionPermit) × WarmPool × CapacityState → PoolWorld
refilled w (ok permits, pool, ledger) = record w {
  pool = pool;
  ledger = ledger;
  booting = permits ++ w.booting;
}
refilled w (err e, pool, ledger) = record w { pool = pool; ledger = ledger }

abbrev pub booted : PoolWorld → List ProvisionPermit → Completion → PoolWorld
booted w rest (ok ready, ledger) = record w {
  ledger = ledger;
  booting = rest;
  waiting = ready ∷ w.waiting;
}
booted w rest (err r, ledger) = record w {
  ledger = ledger;
  booting = rest;
  rejected = r ∷ w.rejected;
}

abbrev pub with_pool : PoolWorld → WarmPool × CapacityState → PoolWorld
with_pool w (pool, ledger) = record w { pool = pool; ledger = ledger }

abbrev pub torn_down : Bool → PoolWorld → PoolWorld
torn_down true w = w
torn_down false w = record w { forgotten = w.forgotten + 1 }

abbrev pub goes_on_booting :
    Instance → PoolWorld → ProvisionPermit → List ProvisionPermit → PoolWorld
goes_on_booting instance w permit rest = booted w rest (make_ready instance permit w.ledger)

abbrev pub gives_up : PoolWorld → ProvisionPermit → List ProvisionPermit → PoolWorld
gives_up w permit rest =
    with_pool (record w { booting = rest }) (drop_permit permit w.pool w.ledger)

abbrev pub stows :
    PoolWorld → PoolMember × ProvisionPermit → List (PoolMember × ProvisionPermit) → PoolWorld
stows w ready rest = record w {
  pool = push_back ready.0 w.pool;
  waiting = rest;
  stowed = ready.1 ∷ w.stowed;
}

abbrev pub lets_go : PoolWorld → ProvisionPermit → List ProvisionPermit → PoolWorld
lets_go w permit rest = record w { pool = (release_permit permit w.pool).1; stowed = rest }

abbrev pub reaps : Bool → PoolWorld → RejectedPoolProvision → List RejectedPoolProvision → PoolWorld
reaps exit_confirmed w r rest =
    torn_down exit_confirmed (
      with_pool (record w { rejected = rest }) (teardown_rejected exit_confirmed r w.pool w.ledger))

unfoldable pub step : PoolWorld → PoolEvent → PoolWorld
step w (refills cpu memory) = refilled w (reserve_provisions cpu memory w.pool w.ledger)
step w (boots i instance) = at_place (pick i w.booting) w (goes_on_booting instance w)
step w (fails i) = at_place (pick i w.booting) w (gives_up w)
step w (pushes i) = at_place (pick i w.waiting) w (stows w)
step w (releases i) = at_place (pick i w.stowed) w (lets_go w)
step w (tears_down i exit_confirmed) = at_place (pick i w.rejected) w (reaps exit_confirmed w)
step w pops = record w { pool = (pop w.pool).1 }
step w drains = record w { pool = (drain w.pool).1 }
step w (others ledger) = record w { ledger = ledger }

unfoldable pub run : PoolWorld → List PoolEvent → PoolWorld
run w [] = w
run w (e ∷ es) = run (step w e) es

abbrev pub start : WarmPoolConfig → CapacityState → PoolWorld
start cfg ledger = record {
  pool = new cfg;
  ledger = ledger;
  booting = [];
  waiting = [];
  stowed = [];
  rejected = [];
  forgotten = 0;
}
