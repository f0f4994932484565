-- ===== src/Pool/Histories.antt =====
-- The bounds that the pool of crates/ne-supervisor/src/pool.rs keeps, whatever its tasks do in
-- whatever order.
use ne_enclave.Common.{◌+◌, ◌^◌, ◌≤◌, ◌<◌, ◌≡◌, refl, arith, List, [], ◌∷◌, length}
use ne_enclave.Capacity.State.{CapacityState}
use ne_enclave.Pool.State.{
  WarmPoolConfig, ProvisionPermit, PoolMember, RejectedPoolProvision, new, reserve_provisions, pop,
  pop_front, drain,
}
use ne_enclave.Pool.Refill.{reserve_pool_batch-AtMost}
use ne_enclave.Pool.Interleaving.{
  PoolWorld, PoolEvent, refills, boots, fails, pushes, releases, tears_down, pops, drains, others,
  at_place, goes_on_booting, gives_up, stows, lets_go, reaps, step, run, start,
}
use ne_enclave.Pool.Permits.{Unreleased, IsBounded, pick_rule, make_ready-Keeps}
use ne_enclave.Pool.Bounds.{
  booted-IsBounded, failed-IsBounded, pushed-IsBounded, released-IsBounded, torn_down-IsBounded,
  fewer-IsBounded, others-IsBounded, refilled-IsBounded,
}

length-pop_front : (members : List PoolMember) → length (pop_front members).1 ≤ length members
length-pop_front [] = omega arith
length-pop_front (member ∷ members) = omega arith

module _ (cfg : WarmPoolConfig) (small : cfg.target_size + cfg.max_in_flight < 2 ^ 64) where
  step-IsBounded : (w : PoolWorld) (e : PoolEvent) → IsBounded cfg w → IsBounded cfg (step w e)
  unfolding step reserve_provisions pop drain
  step-IsBounded w (refills cpu memory) v =
      refilled-IsBounded cfg small w v cpu memory _
        (reserve_pool_batch-AtMost _ cpu memory w.ledger)
  step-IsBounded w (boots i instance) v =
      pick_rule Unreleased (λ o. IsBounded cfg (at_place o w (goes_on_booting instance w))) i
        w.booting v.booting_held v
        λ permit rest p.
          booted-IsBounded cfg small w v permit rest _ p (make_ready-Keeps instance permit w.ledger)
  step-IsBounded w (fails i) v =
      pick_rule Unreleased (λ o. IsBounded cfg (at_place o w (gives_up w))) i w.booting
        v.booting_held v λ permit rest p. failed-IsBounded cfg small w v permit rest p
  step-IsBounded w (pushes i) v =
      pick_rule (λ (x : PoolMember × ProvisionPermit). Unreleased x.1)
        (λ o. IsBounded cfg (at_place o w (stows w))) i w.waiting v.waiting_held v
        λ ready rest p. pushed-IsBounded cfg small w v ready rest p
  step-IsBounded w (releases i) v =
      pick_rule Unreleased (λ o. IsBounded cfg (at_place o w (lets_go w))) i w.stowed v.stowed_held
        v λ permit rest p. released-IsBounded cfg small w v permit rest p
  step-IsBounded w (tears_down i confirmed) v =
      pick_rule (λ (r : RejectedPoolProvision). Unreleased r.permit)
        (λ o. IsBounded cfg (at_place o w (reaps confirmed w))) i w.rejected v.rejected_held v
        λ r rest p. torn_down-IsBounded cfg small w v confirmed r rest p
  step-IsBounded w pops v =
      fewer-IsBounded cfg small w v (pop_front w.pool.members).1 (length-pop_front w.pool.members)
  step-IsBounded w drains v = fewer-IsBounded cfg small w v [] (omega arith)
  step-IsBounded w (others ledger) v = others-IsBounded cfg small w v ledger

  run-IsBounded : (w : PoolWorld) (es : List PoolEvent) → IsBounded cfg w → IsBounded cfg (run w es)
  unfolding run
  run-IsBounded w [] v = v
  run-IsBounded w (e ∷ es) v = run-IsBounded (step w e) es (step-IsBounded w e v)

  start-IsBounded : (ledger : CapacityState) → IsBounded cfg (start cfg ledger)
  unfolding new
  start-IsBounded ledger = record {
    same_cfg = refl;
    filled = omega arith;
    counted = refl;
    capped = omega arith;
    booting_held = tt;
    waiting_held = tt;
    stowed_held = tt;
    rejected_held = tt;
  }

  -- From an empty pool whose target and cap on provisions fit a `usize` together, whatever refills,
  -- provisions, checkouts and other users of the ledger do in whatever order: the members, with every
  -- provision that may still become one, are never more than the target; the provisions counted in
  -- flight are never more than the cap, and they are exactly the permits that are held, so that no
  -- slot is lost or released twice.
  pub run_within_target :
      (ledger : CapacityState) (es : List PoolEvent)
      → let w = run (start cfg ledger) es in
        (length w.pool.members + length w.booting + length w.waiting + length w.rejected
          ≤ cfg.target_size)
        × (w.pool.in_flight ≤ cfg.max_in_flight)
        × (w.pool.in_flight
            ≡ length w.booting
              + length w.waiting
              + length w.stowed
              + length w.rejected
              + w.forgotten)
  run_within_target ledger es =
      let v = run-IsBounded (start cfg ledger) es (start-IsBounded ledger) in
      (omega (arith, v.filled), v.capped, v.counted)
