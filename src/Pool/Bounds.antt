-- ===== src/Pool/Bounds.antt =====
-- Each step of the tasks around the pool of crates/ne-supervisor/src/pool.rs keeps its bounds.
use ne_enclave.Common.{
  ℕ, ◌+◌, ◌^◌, ◌≤◌, ◌<◌, ap, Bool, true, false, arith, List, [], ◌∷◌, Result, ok, err, length,
  length-append, ◌∙◌,
}
use ne_enclave.Capacity.State.{CapacityState, CapacityError, CapacityEntryId}
use ne_enclave.Pool.State.{
  WarmPoolConfig, ProvisionPermit, PoolMember, RejectedPoolProvision, Completion, refill_deficit,
  permits_for, push_back, release_permit, drop_permit, teardown_rejected,
}
use ne_enclave.Pool.Refill.{permits_of, issue_permits_lem, Holds, AtMost}
use ne_enclave.Pool.Interleaving.{PoolWorld, refilled, booted, with_pool, torn_down}
use ne_enclave.Pool.Permits.{
  Unreleased, IsBounded, Picked, Keeps, length-permits_of, permits_of-held,
}

module _ (cfg : WarmPoolConfig) (small : cfg.target_size + cfg.max_in_flight < 2 ^ 64)
    (w : PoolWorld) (v : IsBounded cfg w) where
  pub booted-IsBounded :
      (permit : ProvisionPermit) (rest : List ProvisionPermit) (c : Completion)
      → Picked Unreleased w.booting permit rest
      → Keeps permit c
      → IsBounded cfg (booted w rest c)
  unfolding Keeps
  booted-IsBounded permit rest (ok ready, ledger) p k = record {
    same_cfg = v.same_cfg;
    filled = omega (arith, v.filled, p.size);
    counted = omega (arith, v.counted, p.size);
    capped = v.capped;
    booting_held = p.others_held;
    waiting_held = (k ∙ p.held, v.waiting_held);
    stowed_held = v.stowed_held;
    rejected_held = v.rejected_held;
  }
  booted-IsBounded permit rest (err r, ledger) p k = record {
    same_cfg = v.same_cfg;
    filled = omega (arith, v.filled, p.size);
    counted = omega (arith, v.counted, p.size);
    capped = v.capped;
    booting_held = p.others_held;
    waiting_held = v.waiting_held;
    stowed_held = v.stowed_held;
    rejected_held = (k ∙ p.held, v.rejected_held);
  }

  pub failed-IsBounded :
      (permit : ProvisionPermit) (rest : List ProvisionPermit)
      → Picked Unreleased w.booting permit rest
      → IsBounded cfg (with_pool (record w { booting = rest }) (drop_permit permit w.pool w.ledger))
  unfolding drop_permit release_permit
  failed-IsBounded permit rest p = rw p.held (record {
    same_cfg = v.same_cfg;
    filled = omega (arith, v.filled, p.size);
    counted = omega (arith, v.counted, v.capped, p.size);
    capped = omega (arith, v.counted, v.capped, p.size);
    booting_held = p.others_held;
    waiting_held = v.waiting_held;
    stowed_held = v.stowed_held;
    rejected_held = v.rejected_held;
  })

  pub pushed-IsBounded :
      (ready : PoolMember × ProvisionPermit) (rest : List (PoolMember × ProvisionPermit))
      → Picked (λ x. Unreleased x.1) w.waiting ready rest
      → IsBounded cfg (record w {
        pool = push_back ready.0 w.pool;
        waiting = rest;
        stowed = ready.1 ∷ w.stowed;
      })
  unfolding push_back
  pushed-IsBounded ready rest p = record {
    same_cfg = v.same_cfg;
    filled = omega (arith, v.filled, p.size, length-append w.pool.members (ready.0 ∷ []));
    counted = omega (arith, v.counted, p.size);
    capped = v.capped;
    booting_held = v.booting_held;
    waiting_held = p.others_held;
    stowed_held = (p.held, v.stowed_held);
    rejected_held = v.rejected_held;
  }

  pub released-IsBounded :
      (permit : ProvisionPermit) (rest : List ProvisionPermit)
      → Picked Unreleased w.stowed permit rest
      → IsBounded cfg (record w { pool = (release_permit permit w.pool).1; stowed = rest })
  unfolding release_permit
  released-IsBounded permit rest p = rw p.held (record {
    same_cfg = v.same_cfg;
    filled = v.filled;
    counted = omega (arith, v.counted, v.capped, p.size);
    capped = omega (arith, v.counted, v.capped, p.size);
    booting_held = v.booting_held;
    waiting_held = v.waiting_held;
    stowed_held = p.others_held;
    rejected_held = v.rejected_held;
  })

  pub torn_down-IsBounded :
      (exit_confirmed : Bool) (r : RejectedPoolProvision) (rest : List RejectedPoolProvision)
      → Picked (λ r. Unreleased r.permit) w.rejected r rest
      → IsBounded cfg (
          torn_down exit_confirmed (
            with_pool
              (record w { rejected = rest })
              (teardown_rejected exit_confirmed r w.pool w.ledger)))
  unfolding teardown_rejected drop_permit release_permit
  torn_down-IsBounded true r rest p = rw p.held (record {
    same_cfg = v.same_cfg;
    filled = omega (arith, v.filled, p.size);
    counted = omega (arith, v.counted, v.capped, p.size);
    capped = omega (arith, v.counted, v.capped, p.size);
    booting_held = v.booting_held;
    waiting_held = v.waiting_held;
    stowed_held = v.stowed_held;
    rejected_held = p.others_held;
  })
  torn_down-IsBounded false r rest p = record {
    same_cfg = v.same_cfg;
    filled = omega (arith, v.filled, p.size);
    counted = omega (arith, v.counted, p.size);
    capped = v.capped;
    booting_held = v.booting_held;
    waiting_held = v.waiting_held;
    stowed_held = v.stowed_held;
    rejected_held = p.others_held;
  }

  -- Members leave the pool.
  pub fewer-IsBounded :
      (members : List PoolMember)
      → length members ≤ length w.pool.members
      → IsBounded cfg (record w { pool = record (w.pool) { members = members } })
  fewer-IsBounded members le = record {
    same_cfg = v.same_cfg;
    filled = omega (arith, v.filled);
    counted = v.counted;
    capped = v.capped;
    booting_held = v.booting_held;
    waiting_held = v.waiting_held;
    stowed_held = v.stowed_held;
    rejected_held = v.rejected_held;
  }

  pub issued-IsBounded :
      (cpu memory : ℕ) (ks : List CapacityEntryId) (ledger : CapacityState)
      → length ks
        ≤ refill_deficit w.pool.cfg.target_size
            (length w.pool.members)
            w.pool.in_flight
            w.pool.cfg.max_in_flight
      → IsBounded cfg (refilled w (permits_for cpu memory w.pool (ok ks, ledger)))
  unfolding permits_for refill_deficit
  issued-IsBounded cpu memory ks ledger le =
      let t = ap (λ (c : WarmPoolConfig). c.target_size) v.same_cfg in
      let m = ap (λ (c : WarmPoolConfig). c.max_in_flight) v.same_cfg in
      rw (issue_permits_lem cpu memory ks w.pool (omega (arith, le, t, m, v.capped))) (record {
        same_cfg = v.same_cfg;
        filled = omega (
          arith,
          le,
          t,
          v.filled,
          v.counted,
          v.capped,
          length-permits_of cpu memory ks,
          length-append (permits_of cpu memory ks) w.booting,
        );
        counted = omega (
          arith,
          v.counted,
          length-permits_of cpu memory ks,
          length-append (permits_of cpu memory ks) w.booting,
        );
        capped = omega (arith, le, t, m, v.capped);
        booting_held = permits_of-held cpu memory ks w.booting v.booting_held;
        waiting_held = v.waiting_held;
        stowed_held = v.stowed_held;
        rejected_held = v.rejected_held;
      })

  pub others-IsBounded : (ledger : CapacityState) → IsBounded cfg (record w { ledger = ledger })
  others-IsBounded ledger = record {
    same_cfg = v.same_cfg;
    filled = v.filled;
    counted = v.counted;
    capped = v.capped;
    booting_held = v.booting_held;
    waiting_held = v.waiting_held;
    stowed_held = v.stowed_held;
    rejected_held = v.rejected_held;
  }

  pub refilled-IsBounded :
      (cpu memory : ℕ) (r : Result CapacityError (List CapacityEntryId) × CapacityState)
      → Holds
          (AtMost (
            refill_deficit w.pool.cfg.target_size
              (length w.pool.members)
              w.pool.in_flight
              w.pool.cfg.max_in_flight))
          r
      → IsBounded cfg (refilled w (permits_for cpu memory w.pool r))
  unfolding Holds permits_for
  refilled-IsBounded cpu memory (ok ks, ledger) h = issued-IsBounded cpu memory ks ledger h
  refilled-IsBounded cpu memory (err e, ledger) h = others-IsBounded ledger
