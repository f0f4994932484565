-- ===== src/Network/Allocation.antt =====
-- Which slot the allocator of crates/ne-supervisor/src/network.rs takes.
use ne_enclave.Common.{
  ℕ, zero, suc, ◌+◌, ◌≤◌, ◌<◌, Bool, true, false, ◌≡◌, ◌⊎◌, inl, inr, refl, ap, arith, Option, none,
  some, [], ◌∷◌, length, get_elem?, nat_eq, if◌then◌else◌, Option-cases, Bool-cases,
}
use ne_enclave.Network.Slots.{max_slot, Slots, set_slot, allocate_from, allocate_slot, release_slot}

get_elem?-set_slot :
    (slots : Slots) (i j : ℕ) (b old : Bool)
    → get_elem? slots i ≡ some old
    → get_elem? (set_slot slots i b) j ≡ (if nat_eq i j then some b else get_elem? slots j)
unfolding set_slot
get_elem?-set_slot [] i j b old h = ground arith
get_elem?-set_slot (s ∷ slots) zero zero b old h = refl
get_elem?-set_slot (s ∷ slots) zero (suc j) b old h = ground arith
get_elem?-set_slot (s ∷ slots) (suc i) zero b old h = ground arith
get_elem?-set_slot (s ∷ slots) (suc i) (suc j) b old h =
    ground (arith, get_elem?-set_slot slots i j b old h)

-- Slot `i` was the first free one from `from` on, and is all that changed.
pub record Takes (from limit : ℕ) (slots : Slots) (i : ℕ) (t : Slots) : Type 0 where
  pub above : from ≤ i
  pub below : i < limit
  pub was_free : get_elem? slots i ≡ some true
  pub lowest : (j : ℕ) → from ≤ j → j < i → get_elem? slots j ≡ some false
  pub only : (j : ℕ) → get_elem? t j ≡ (if nat_eq i j then some false else get_elem? slots j)

-- What a search finds.
abbrev pub Searched : ℕ → ℕ → Slots → Option (ℕ × Slots) → Type 0
Searched from limit slots none = (j : ℕ) → from ≤ j → j < limit → get_elem? slots j ≡ some false
Searched from limit slots (some (i, t)) = Takes from limit slots i t

get_elem?-within :
    (slots : Slots) (i : ℕ)
    → i < length slots
    → (get_elem? slots i ≡ some true) ⊎ (get_elem? slots i ≡ some false)
get_elem?-within [] i h = absurd (omega arith)
get_elem?-within (s ∷ slots) zero h = elim (Bool-cases s) [
  | inl e ↦ inl (ap some e)
  | inr e ↦ inr (ap some e)
]
get_elem?-within (s ∷ slots) (suc i) h = get_elem?-within slots i (omega arith)

later_found :
    (n i : ℕ) (slots : Slots) (o : Option (ℕ × Slots))
    → get_elem? slots i ≡ some false
    → Searched (i + 1) (i + 1 + n) slots o
    → Searched i (i + suc n) slots o
later_found n i slots none h s = λ j p q. elim (Bool-cases (nat_eq i j)) [
  | inl e ↦ ground arith
  | inr e ↦ s j (ground arith) (omega arith)
]
later_found n i slots (some (k, t)) h s = record {
  above = omega (arith, s.above);
  below = omega (arith, s.below);
  was_free = s.was_free;
  lowest = λ j p q. elim (Bool-cases (nat_eq i j)) [
    | inl e ↦ ground arith
    | inr e ↦ s.lowest j (ground arith) q
  ];
  only = s.only;
}

taken_here :
    (n i : ℕ) (slots : Slots)
    → get_elem? slots i ≡ some true
    → Searched i (i + suc n) slots (some (i, set_slot slots i false))
taken_here n i slots h = record {
  above = omega arith;
  below = omega arith;
  was_free = h;
  lowest = λ j p q. absurd (omega arith);
  only = λ j. get_elem?-set_slot slots i j false true h;
}

allocate_from-Searched :
    (n i : ℕ) (slots : Slots)
    → i + n ≤ length slots
    → Searched i (i + n) slots (allocate_from n i slots)
unfolding allocate_from
allocate_from-Searched zero i slots h = λ j p q. absurd (omega arith)
allocate_from-Searched (suc n) i slots h = elim (get_elem?-within slots i (omega arith)) [
  | inl found ↦ rw (found, allocate_from) (taken_here n i slots found)
  | inr found ↦
      rw (found, allocate_from)
        (later_found n i slots _ found (allocate_from-Searched n (i + 1) slots (omega arith)))
]

-- In a pool of 254 slots, an allocation takes the lowest free slot from 1 to 253 and nothing else, or
-- finds that all of them are taken.
pub allocate_slot-Searched :
    (slots : Slots) → length slots ≡ 254 → Searched 1 254 slots (allocate_slot slots)
unfolding allocate_slot
allocate_slot-Searched slots h = allocate_from-Searched max_slot 1 slots (omega arith)

set_back :
    (slots : Slots) (i : ℕ)
    → get_elem? slots i ≡ some true
    → set_slot (set_slot slots i false) i true ≡ slots
unfolding set_slot
set_back [] i h = refl
set_back (s ∷ slots) zero h = ground arith
set_back (s ∷ slots) (suc i) h = ap (◌∷◌ s) (set_back slots i h)

allocated_set :
    (n i : ℕ) (slots : Slots) (k : ℕ) (t : Slots)
    → allocate_from n i slots ≡ some (k, t)
    → (t ≡ set_slot slots k false) × (get_elem? slots k ≡ some true)
unfolding allocate_from
allocated_set zero i slots k t h = ground arith
allocated_set (suc n) i slots k t h = elim (Option-cases (get_elem? slots i)) [
  | inl e ↦ ground arith
  | inr (true, e) ↦ ground arith
  | inr (false, e) ↦ ground (arith, allocated_set n (i + 1) slots k t)
]

-- Releasing the slot that was just allocated gives the pool from before.
pub release_slot-allocate_slot :
    (slots t : Slots) (i : ℕ) → allocate_slot slots ≡ some (i, t) → release_slot t i ≡ slots
unfolding allocate_slot release_slot
release_slot-allocate_slot slots t i h =
    let (e, free) = allocated_set max_slot 1 slots i t h in rw e (set_back slots i free)
