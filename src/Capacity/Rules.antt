-- ===== src/Capacity/Rules.antt =====
-- A proof rule for each check that an operation of crates/ne-supervisor/src/capacity.rs starts with:
-- what is to be shown where the check fails, and where the operation goes on.
use ne_enclave.Common.{
  ℕ, ◌+◌, ◌^◌, ◌<◌, ◌≤◌, ◌≡◌, refl, Bool, true, false, Option, none, some, arith, err, require,
  Result, ◌>>=◌, if◌then◌else◌,
}
use ne_enclave.Capacity.State.{
  CapacityState, CapacityError, Locked, ensure_healthy, ensure_capacity, entry_count,
  preflight_next_revision, preflight_revision_range, is_faulted, exhausted, arithmetic_overflow,
}
use ne_enclave.Capacity.Edits.{used, IsOpen}

module _ {A : Type 0} (P : Result CapacityError A × CapacityState → Type 0)
    (s : CapacityState) where
  -- Each check with the reason for which it fails.
  pub healthy_cases :
      (f : Unit {0} → Locked A)
      → (s.faulted ≡ true → P (err is_faulted, s))
      → (s.faulted ≡ false → P (f tt s))
      → P ((ensure_healthy >>= f) s)
  unfolding ensure_healthy
  healthy_cases f bad good = ground (arith, bad, good)

  pub room_cases :
      (f : Unit {0} → Locked A)
      → (2 ^ 64 ≤ used s → P (err arithmetic_overflow, s))
      → (s.configured_workspace_ceiling ≤ used s → P (err exhausted, s))
      → (used s < s.configured_workspace_ceiling → P (f tt s))
      → P ((ensure_capacity >>= f) s)
  unfolding ensure_capacity entry_count
  room_cases f overflow full good = ground (arith, overflow, full, good)

  pub revision_cases :
      (f : ℕ → Locked A)
      → (s.faulted ≡ true → P (err is_faulted, s))
      → (2 ^ 64 ≤ s.revision + 1 → P (err is_faulted, record s { faulted = true }))
      → (IsOpen s → P (f (s.revision + 1) s))
      → P ((preflight_next_revision >>= f) s)
  unfolding preflight_next_revision
  revision_cases f bad faults good = ground (arith, bad, faults, good)

  pub range_cases :
      (count : ℕ) (f : Unit {0} → Locked A)
      → (s.faulted ≡ true → P (err is_faulted, s))
      → (2 ^ 64 ≤ s.revision + count → P (err is_faulted, record s { faulted = true }))
      → (s.revision + count < 2 ^ 64 → P (f tt s))
      → P ((preflight_revision_range count >>= f) s)
  unfolding preflight_revision_range
  range_cases count f bad faults good = ground (arith, bad, faults, good)

  -- The same where the reason does not matter.
  pub healthy_rule :
      (f : Unit {0} → Locked A)
      → P (err is_faulted, s)
      → (s.faulted ≡ false → P (f tt s))
      → P ((ensure_healthy >>= f) s)
  healthy_rule f bad good = healthy_cases f (λ _. bad) good

  pub room_rule :
      (f : Unit {0} → Locked A)
      → P (err arithmetic_overflow, s)
      → P (err exhausted, s)
      → (used s < s.configured_workspace_ceiling → P (f tt s))
      → P ((ensure_capacity >>= f) s)
  room_rule f overflow full good = room_cases f (λ _. overflow) (λ _. full) good

  pub revision_rule :
      (f : ℕ → Locked A)
      → P (err is_faulted, s)
      → P (err is_faulted, record s { faulted = true })
      → (IsOpen s → P (f (s.revision + 1) s))
      → P ((preflight_next_revision >>= f) s)
  revision_rule f bad faults good = revision_cases f (λ _. bad) (λ _. faults) good

  pub option_rule :
      {B : Type 0} (o : Option B) (e : CapacityError) (f : B → Locked A)
      → (o ≡ none → P (err e, s))
      → ((b : B) → o ≡ some b → P (f b s))
      → P ((require o e >>= f) s)
  unfolding require
  option_rule none e f bad good = bad refl
  option_rule (some b) e f bad good = good b refl

  pub if_rule :
      (b : Bool) (m n : Locked A)
      → (b ≡ true → P (m s))
      → (b ≡ false → P (n s))
      → P ((if b then m else n) s)
  if_rule true m n yes_case no_case = yes_case refl
  if_rule false m n yes_case no_case = no_case refl
