-- ===== src/Pool/Refill.antt =====
-- `reserve_provisions` of crates/ne-supervisor/src/pool.rs: how many provisions a refill starts, and
-- what each permit owns.
use ne_enclave.Common.{
  ℕ, zero, suc, ◌+◌, ◌-◌, ◌^◌, ◌≤◌, ◌<◌, ◌≡◌, refl, false, some, List, [], ◌∷◌, arith, Result, ok,
  err, length, min, ◌%◌, continue, ◌>>◌, checked_add, pure, require, nat_eq, if◌then◌else◌,
  Bool-cases, inl, inr,
}
use ne_enclave.Capacity.State.{
  CapacityError, CapacityState, CapacityEntryId, Locked, ensure_healthy, preflight_revision_range,
  arithmetic_overflow,
}
use ne_enclave.Capacity.Admission.{
  reserve_pool_entry, reserve_pool_entries, reserve_pool_batch_entries, room_left,
}
use ne_enclave.Capacity.Invariant.{Inv}
use ne_enclave.Capacity.Batch.{batch_size, after_batch, ids_from, reserve_pool_batch_takes}
use ne_enclave.Pool.State.{
  WarmPool, ProvisionPermit, refill_deficit, issue_permits, permits_for, reserve_provisions,
}

-- The permits of a refill, for the entries in `ks`.
abbrev pub permits_of : ℕ → ℕ → List CapacityEntryId → List ProvisionPermit
permits_of cpu memory [] = []
permits_of cpu memory (k ∷ ks) =
    record {
      capacity = some (some k);
      cpu_millicores = cpu;
      memory_bytes = memory;
      released = false;
    }
    ∷ permits_of cpu memory ks

pub issue_permits_lem :
    (cpu memory : ℕ) (ks : List CapacityEntryId) (pool : WarmPool)
    → pool.in_flight + length ks < 2 ^ 64
    → issue_permits cpu memory ks pool
      ≡ (permits_of cpu memory ks, record pool { in_flight = pool.in_flight + length ks })
unfolding issue_permits
issue_permits_lem cpu memory [] pool h = ground arith
issue_permits_lem cpu memory (k ∷ ks) pool h =
    ground (arith, issue_permits_lem cpu memory ks (record pool { in_flight = pool.in_flight + 1 }))

-- What a successful result satisfies.
unfoldable pub Holds : {A : Type 0} → (A → Type 0) → Result CapacityError A × CapacityState → Type 0
Holds Q (ok a, s) = Q a
Holds Q (err e, s) = Unit

module _ {A B : Type 0} (Q : A → Type 0) (R : B → Type 0) where
  continue-Holds :
      (x : Result CapacityError A × CapacityState) (f : A → Locked B)
      → Holds Q x
      → ((a : A) (t : CapacityState) → Q a → Holds R (f a t))
      → Holds R (continue x.0 f x.1)
  unfolding Holds
  continue-Holds (ok a, s) f h rest = rest a s h
  continue-Holds (err e, s) f h rest = tt

anything : {A : Type 0} (x : Result CapacityError A × CapacityState) → Holds (λ _. Unit) x
unfolding Holds
anything (ok a, s) = tt
anything (err e, s) = tt

-- A batch gives no more entries than it was asked for.
abbrev pub AtMost : ℕ → List CapacityEntryId → Type 0
AtMost n ks = length ks ≤ n

reserve_pool_entries-AtMost :
    (n cpu memory : ℕ) (s : CapacityState) → Holds (AtMost n) (reserve_pool_entries n cpu memory s)
unfolding reserve_pool_entries Holds
reserve_pool_entries-AtMost zero cpu memory s = omega arith
reserve_pool_entries-AtMost (suc n) cpu memory s =
    continue-Holds (λ _. Unit) (AtMost (suc n)) (reserve_pool_entry cpu memory s) _ (anything _)
      λ k t _.
        continue-Holds (AtMost n) (AtMost (suc n)) (reserve_pool_entries n cpu memory t) _
          (reserve_pool_entries-AtMost n cpu memory t)
          λ ks u h. let le : length ks ≤ n = h in omega arith

fewer :
    (m n : ℕ)
    → m ≤ n
    → (x : Result CapacityError (List CapacityEntryId) × CapacityState) → Holds (AtMost m) x
    → Holds (AtMost n) x
unfolding Holds
fewer m n le (ok ks, s) h = let short : length ks ≤ m = h in omega arith
fewer m n le (err e, s) h = tt

nonempty :
    (n cpu memory : ℕ) (t u : CapacityState) (room : ℕ)
    → Holds (AtMost n) (
        (if nat_eq (min n room) 0 then pure [] else (do
          require (checked_add (2 ^ 64) t.next_pool_id (min n room)) arithmetic_overflow
          preflight_revision_range (min n room)
          reserve_pool_entries (min n room) cpu memory))
          u)
unfolding Holds
nonempty n cpu memory t u room = elim (Bool-cases (nat_eq (min n room) 0)) [
  | inl empty ↦ rw empty (omega arith)
  | inr some_left ↦ rw some_left (
      continue-Holds (λ _. Unit) (AtMost n)
        (require (checked_add (2 ^ 64) t.next_pool_id (min n room)) arithmetic_overflow u) _
        (anything _)
        λ _ v _.
          continue-Holds (λ _. Unit) (AtMost n) (preflight_revision_range (min n room) v) _
            (anything _)
            λ _ w _.
              fewer (min n room) n (omega arith) _
                (reserve_pool_entries-AtMost (min n room) cpu memory w))
]

pub reserve_pool_batch-AtMost :
    (n cpu memory : ℕ) (s : CapacityState)
    → Holds (AtMost n) (reserve_pool_batch_entries n cpu memory s)
unfolding reserve_pool_batch_entries
reserve_pool_batch-AtMost n cpu memory s =
    continue-Holds (λ _. Unit) (AtMost n) (ensure_healthy s) _ (anything _)
      λ _ t _.
        continue-Holds (λ _. Unit) (AtMost n) (room_left t, t) _ (anything _)
          λ room u _. nonempty n cpu memory t u room

-- The deficit of a pool.
abbrev pub deficit : WarmPool → ℕ
deficit pool =
    min (pool.cfg.target_size - (length pool.members + pool.in_flight))
      (pool.cfg.max_in_flight - pool.in_flight)

length-ids_from : (i n : ℕ) → length (ids_from i n) ≡ n
length-ids_from i zero = omega arith
length-ids_from i (suc n) = omega (arith, length-ids_from (i + 1) n)

module _ (cpu memory : ℕ) (pool : WarmPool) (ledger : CapacityState) where
  abbrev pub taken : ℕ
  taken = batch_size (deficit pool) ledger

  -- In a ledger whose invariant holds and which takes changes, with room in its counters, and where
  -- the pool's cap on provisions fits a `usize` together with what the pool holds: a refill
  -- starts as many provisions as the target lacks, up to the cap and up to the room below the ledger's
  -- ceiling. Each is counted in flight, and each permit owns an entry of its own, under the ids that
  -- follow; the members are those from before.
  pub reserve_provisions_lem :
      Inv ledger
      → ledger.faulted ≡ false
      → ledger.next_pool_id + taken < 2 ^ 64
      → ledger.revision + taken < 2 ^ 64
      → length pool.members + pool.in_flight + pool.cfg.max_in_flight < 2 ^ 64
      → reserve_provisions cpu memory pool ledger ≡ (
        ok (permits_of cpu memory (ids_from ledger.next_pool_id taken)),
        record pool { in_flight = pool.in_flight + taken },
        after_batch cpu memory taken ledger,
      )
  unfolding reserve_provisions permits_for refill_deficit
  reserve_provisions_lem inv healthy ids revisions small =
      let batch =
        (reserve_pool_batch_takes (deficit pool) cpu memory ledger inv healthy ids revisions).0 in
      let sum : (length pool.members + pool.in_flight) % 2 ^ 64
          ≡ length pool.members + pool.in_flight =
        omega arith in
      let size = length-ids_from ledger.next_pool_id taken in
      let issued =
        issue_permits_lem cpu memory (ids_from ledger.next_pool_id taken) pool (omega arith) in
      rw (sum, batch) (rw (issued, size) refl)
