-- ===== src/Capacity/Batch.antt =====
-- `reserve_pool_batch` of crates/ne-supervisor/src/capacity.rs: the loop that reserves a batch.
use ne_enclave.Common.{
  nat_eq_iff, ℕ, zero, suc, ◌+◌, ◌-◌, ◌^◌, ◌≤◌, ◌<◌, ◌≡◌, refl, Bool, true, false, List, [], ◌∷◌,
  arith, min, ok, err, ◌>>=◌, ◌>>◌, require, checked_add, if◌then◌else◌, Result, inl, inr, nat_eq,
  sym, subst, Bool-cases, ◌∙◌,
}
use ne_enclave.Map.Laws.{length-insert_new}
use ne_enclave.Capacity.State.{
  CapacityState, CapacityError, CapacityEntryId, pool, Locked, entry_eq, reserved, entry_count,
  preflight_next_revision, preflight_revision_range, arithmetic_overflow, is_faulted,
  ensure_healthy,
}
use ne_enclave.Capacity.Edits.{
  used, Edit, reserve_pool, Edits, done, and_then, with_pool_entry, Outcome, refused, faults,
  unchanged, edits,
}
use ne_enclave.Capacity.Rules.{option_rule, range_cases}
use ne_enclave.Capacity.Invariant.{Inv, Edit-Inv}
use ne_enclave.Capacity.Admission.{
  room_left, reserve_pool_entry, reserve_pool_entries, reserve_pool_batch_entries,
}

-- What the preflight of a batch of `count` establishes.
pub record Fits (count : ℕ) (s : CapacityState) : Type 0 where
  pub healthy : s.faulted ≡ false
  pub room : used s + count ≤ s.configured_workspace_ceiling
  pub ids_fit : s.next_pool_id + count < 2 ^ 64
  pub revisions_fit : s.revision + count < 2 ^ 64

-- The ids `from`, `from + 1`, … of a batch.
abbrev pub ids_from : ℕ → ℕ → List CapacityEntryId
ids_from from zero = []
ids_from from (suc count) = pool from ∷ ids_from (from + 1) count

module _ (cpu memory : ℕ) where
  abbrev pub after_one : CapacityState → CapacityState
  after_one s =
      with_pool_entry (record s { next_pool_id = s.next_pool_id + 1 }) (pool s.next_pool_id)
        (record { state = reserved; cpu_millicores = cpu; memory_bytes = memory })

  abbrev pub after_batch : ℕ → CapacityState → CapacityState
  after_batch zero s = s
  after_batch (suc count) s = after_batch count (after_one s)

  -- One round of the loop, where the preflight has passed.
  reserve_pool_entry_lem :
      (count : ℕ) (s : CapacityState)
      → Fits (suc count) s
      → reserve_pool_entry cpu memory s ≡ (ok (pool s.next_pool_id), after_one s)
  unfolding reserve_pool_entry preflight_next_revision require
  reserve_pool_entry_lem count s f = ground arith

  pub after_one-Edit : {count : ℕ} {s : CapacityState} → Fits (suc count) s → Edit s (after_one s)
  after_one-Edit f =
      reserve_pool cpu memory (record { healthy = f.healthy; revision_fits = omega arith })
        (omega arith) (omega arith) refl

  pub after_one-Fits :
      (count : ℕ) (s : CapacityState) → Inv s → Fits (suc count) s → Fits count (after_one s)
  after_one-Fits count s v f = record {
    healthy = f.healthy;
    room = omega (
      arith,
      length-insert_new (pool s.next_pool_id) _ s.pool_entries
          (v.fresh s.next_pool_id (omega arith)),
      f.room,
    );
    ids_fit = omega (arith, f.ids_fit);
    revisions_fit = omega (arith, f.revisions_fit);
  }

  -- The loop makes every reservation.
  reserve_pool_entries_lem :
      (count : ℕ) (s : CapacityState)
      → Inv s
      → Fits count s
      → reserve_pool_entries count cpu memory s
        ≡ (ok (ids_from s.next_pool_id count), after_batch count s)
  unfolding reserve_pool_entries
  reserve_pool_entries_lem zero s v f = refl
  reserve_pool_entries_lem (suc count) s v f = rw (reserve_pool_entry_lem count s f) (
      rw
        (reserve_pool_entries_lem count (after_one s) (Edit-Inv (after_one-Edit f) v)
          (after_one-Fits count s v f))
        refl)

  after_batch-Edits :
      (count : ℕ) (s : CapacityState) → Inv s → Fits count s → Edits s (after_batch count s)
  after_batch-Edits zero s v f = done
  after_batch-Edits (suc count) s v f = and_then (after_one-Edit f) (
      after_batch-Edits count (after_one s) (Edit-Inv (after_one-Edit f) v)
        (after_one-Fits count s v f))

  used-after_batch :
      (count : ℕ) (s : CapacityState)
      → Inv s
      → Fits count s
      → used (after_batch count s) ≡ used s + count
  used-after_batch zero s v f = omega arith
  used-after_batch (suc count) s v f = omega (
    arith,
    used-after_batch count (after_one s) (Edit-Inv (after_one-Edit f) v)
        (after_one-Fits count s v f),
    length-insert_new (pool s.next_pool_id) _ s.pool_entries (v.fresh s.next_pool_id (omega arith)),
  )

-- How many entries a batch takes: the room below the ceiling bounds the request.
abbrev pub batch_size : ℕ → CapacityState → ℕ
batch_size requested s = min requested (s.configured_workspace_ceiling - used s)

room_left_lem :
    (s : CapacityState) → Inv s → room_left s ≡ ok (s.configured_workspace_ceiling - used s)
unfolding room_left entry_count
room_left_lem s v = ground (arith, v.within, v.ceiling_fits)

-- The batch after its size is known and found positive.
batch_body : ℕ → ℕ → ℕ → CapacityState → Result CapacityError (List CapacityEntryId) × CapacityState
batch_body count cpu memory s =
    (do
      require (checked_add (2 ^ 64) s.next_pool_id count) arithmetic_overflow
      preflight_revision_range count
      reserve_pool_entries count cpu memory)
      s

healthy_lem :
    {A : Type 0} (s : CapacityState) (f : Unit {0} → Locked A)
    → s.faulted ≡ false
    → (ensure_healthy >>= f) s ≡ f tt s
unfolding ensure_healthy
healthy_lem s f h = ground arith

if_at :
    {A B : Type 0} (b : Bool) (m n : A → B) (a : A)
    → (if b then m else n) a ≡ (if b then m a else n a)
if_at true m n a = refl
if_at false m n a = refl

reserve_batch_lem :
    (requested cpu memory : ℕ) (s : CapacityState)
    → Inv s
    → s.faulted ≡ false
    → reserve_pool_batch_entries requested cpu memory s ≡ (
        if nat_eq (batch_size requested s) 0
        then (ok [], s)
        else batch_body (batch_size requested s) cpu memory s)
unfolding reserve_pool_batch_entries batch_body
reserve_batch_lem requested cpu memory s v h =
    healthy_lem s _ h ∙ rw (room_left_lem s v) (if_at (nat_eq (batch_size requested s) 0) _ _ s)

faulted_lem :
    (requested cpu memory : ℕ) (s : CapacityState)
    → s.faulted ≡ true
    → reserve_pool_batch_entries requested cpu memory s ≡ (err is_faulted, s)
unfolding reserve_pool_batch_entries ensure_healthy
faulted_lem requested cpu memory s h = ground arith

module _ (requested cpu memory : ℕ) (s : CapacityState) (v : Inv s) where
  fits :
      s.faulted ≡ false
      → s.next_pool_id + batch_size requested s < 2 ^ 64
      → s.revision + batch_size requested s < 2 ^ 64
      → Fits (batch_size requested s) s
  fits healthy ids revisions = record {
    healthy = healthy;
    room = omega (arith, v.within);
    ids_fit = ids;
    revisions_fit = revisions;
  }

  -- A healthy ledger whose counters have room reserves the smaller of the request and the room below
  -- the ceiling, under the ids that follow, and uses exactly so many entries more.
  pub reserve_pool_batch_takes :
      s.faulted ≡ false
      → s.next_pool_id + batch_size requested s < 2 ^ 64
      → s.revision + batch_size requested s < 2 ^ 64
      → (reserve_pool_batch_entries requested cpu memory s ≡ (
        ok (ids_from s.next_pool_id (batch_size requested s)),
        after_batch cpu memory (batch_size requested s) s,
      ))
        × (used (after_batch cpu memory (batch_size requested s) s)
            ≡ used s + batch_size requested s)
  unfolding batch_body require preflight_revision_range
  reserve_pool_batch_takes healthy ids revisions = (
    reserve_batch_lem requested cpu memory s v healthy
        ∙ ground (
          arith,
          reserve_pool_entries_lem cpu memory (batch_size requested s) s v
              (fits healthy ids revisions),
        ),
    used-after_batch cpu memory (batch_size requested s) s v (fits healthy ids revisions),
  )

  -- What is to be shown of a batch that is refused, of one that faults the ledger, of an empty one
  -- and of one that is reserved, each with the reason.
  module _ (P : Result CapacityError (List CapacityEntryId) × CapacityState → Type 0)
      (was_faulted : s.faulted ≡ true → P (err is_faulted, s))
      (out_of_ids : 2 ^ 64 ≤ s.next_pool_id + batch_size requested s
        → P (err arithmetic_overflow, s))
      (out_of_revisions : 2 ^ 64 ≤ s.revision + batch_size requested s
        → P (err is_faulted, record s { faulted = true }))
      (is_empty : s.faulted ≡ false → batch_size requested s ≡ 0 → P (ok [], s))
      (is_taken : Fits (batch_size requested s) s
        → P (
          ok (ids_from s.next_pool_id (batch_size requested s)),
          after_batch cpu memory (batch_size requested s) s,
        )) where
    batch_body_cases : s.faulted ≡ false → P (batch_body (batch_size requested s) cpu memory s)
    unfolding batch_body
    batch_body_cases healthy =
        option_rule P s (checked_add (2 ^ 64) s.next_pool_id (batch_size requested s)) _ _
          (λ e. out_of_ids (ground arith))
          λ _ ids.
            range_cases P s (batch_size requested s) _ was_faulted out_of_revisions λ revisions.
              let f = fits healthy (ground arith) (ground arith) in
              subst P (sym (reserve_pool_entries_lem cpu memory (batch_size requested s) s v f))
                (is_taken f)

    pub batch_cases : P (reserve_pool_batch_entries requested cpu memory s)
    batch_cases = elim (Bool-cases s.faulted) [
      | inl e ↦ subst P (sym (faulted_lem requested cpu memory s e)) (was_faulted e)
      | inr e ↦
          subst P (sym (reserve_batch_lem requested cpu memory s v e))
            (elim (Bool-cases (nat_eq (batch_size requested s) 0)) [
              | inl empty ↦ rw empty (is_empty e ((nat_eq_iff _ 0).0 empty))
              | inr nonempty ↦ rw nonempty (batch_body_cases e)
            ])
    ]

  -- In a state whose invariant holds, `reserve_pool_batch` succeeds by edits of the specification, or
  -- fails and leaves the state as it was or faulted: no part of a batch is left behind.
  pub reserve_pool_batch-Outcome : Outcome s (reserve_pool_batch_entries requested cpu memory s)
  reserve_pool_batch-Outcome =
      batch_cases (Outcome s) (λ _. refused _ s _) (λ _. refused _ s _) (λ _. faults _ s _)
        (λ _ _. unchanged _ s _)
        λ f. edits _ s _ (after_batch-Edits cpu memory (batch_size requested s) s v f)
