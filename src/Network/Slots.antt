-- ===== src/Network/Slots.antt =====
-- crates/ne-supervisor/src/network.rs: the allocator of the slots whose number is an octet of a
-- workspace's addresses. Slot 0 is never given out.
use ne_enclave.Common.{
  ℕ, zero, suc, ◌+◌, Bool, true, false, Option, none, some, List, [], ◌∷◌, get_elem?, if◌then◌else◌,
}

abbrev pub max_slot : ℕ
max_slot = 253

-- Whether each slot is free.
abbrev pub Slots : Type 0
Slots = List Bool

abbrev pub repeat : ℕ → Bool → Slots
repeat zero b = []
repeat (suc n) b = b ∷ repeat n b

-- `vec![true; (MAX_SLOT as usize) + 1]`.
unfoldable pub all_free : Slots
all_free = repeat 254 true

-- `slots[i] = b`, and `get_mut(i)` with an assignment, which changes nothing out of range.
unfoldable pub set_slot : Slots → ℕ → Bool → Slots
set_slot [] i b = []
set_slot (s ∷ slots) zero b = b ∷ slots
set_slot (s ∷ slots) (suc i) b = s ∷ set_slot slots i b

-- The loop, with `n` slots still to look at from `i` on. An index out of range would panic.
unfoldable pub allocate_from : ℕ → ℕ → Slots → Option (ℕ × Slots)
allocate_from zero i slots = none
allocate_from (suc n) i slots = elim (get_elem? slots i) [
  | none ↦ none
  | some free ↦
      let later = allocate_from n (i + 1) slots in
      if free then some (i, set_slot slots i false) else later
]

-- `none` is the error that the pool is exhausted.
unfoldable pub allocate_slot : Slots → Option (ℕ × Slots)
unfolding allocate_from
allocate_slot slots = allocate_from max_slot 1 slots

unfoldable pub release_slot : Slots → ℕ → Slots
unfolding set_slot
release_slot slots slot = set_slot slots slot true
