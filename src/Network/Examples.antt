-- ===== src/Network/Examples.antt =====
-- The address pool of crates/ne-supervisor/src/network.rs with its first slots taken.
use ne_enclave.Common.{◌≡◌, refl, false, some, ◌∷◌}
use ne_enclave.Network.Slots.{Slots, repeat, allocate_from, allocate_slot, release_slot, set_slot}
use ne_enclave.Network.Allocation.{Searched, allocate_slot-Searched, release_slot-allocate_slot}
use ne_enclave.Common.{true}

abbrev two_taken : Slots
two_taken = true ∷ false ∷ false ∷ repeat 251 true

abbrev three_taken : Slots
three_taken = true ∷ false ∷ false ∷ false ∷ repeat 250 true

allocate_slot-Searched_example : Searched 1 254 two_taken (allocate_slot two_taken)
allocate_slot-Searched_example = allocate_slot-Searched two_taken refl

third : allocate_slot two_taken ≡ some (3, three_taken)
unfolding allocate_slot allocate_from set_slot
third = refl

release_slot-allocate_slot_example : release_slot three_taken 3 ≡ two_taken
release_slot-allocate_slot_example = release_slot-allocate_slot two_taken three_taken 3 third
