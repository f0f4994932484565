-- ===== src/Lifecycle/Nonces.antt =====
-- crates/ne-supervisor/src/workspace.rs: `NonceRing`, the nonces of the attestation requests that a
-- workspace has seen lately.
use ne_enclave.Common.{ℕ, Bool, true, false, List, [], ◌∷◌, ◌++◌, length, leb, Eq, if◌then◌else◌}
use ne_enclave.Map.{Map, contains_key, insert, remove}

-- `seen` is a `HashSet`, and `order` a `VecDeque` with its front first.
pub record NonceRing (H : Type 0) : Type 0 where
  pub seen : Map H (Unit {0})
  pub order : List H

-- `NonceRing::CAP`.
abbrev pub cap_nonces : ℕ
cap_nonces = 256

module _ {H : Type 0} ⦃e : Eq H⦄ where
  abbrev pub empty : NonceRing H
  empty = record { seen = []; order = [] }

  -- The eviction: `pop_front`, and the removal of what it gave.
  abbrev pub evict_front : List H → Map H (Unit {0}) → NonceRing H
  evict_front [] seen = record { seen = seen; order = [] }
  evict_front (old ∷ rest) seen = record { seen = remove old seen; order = rest }

  unfoldable pub evict : NonceRing H → NonceRing H
  evict ring = if leb cap_nonces (length ring.order) then evict_front ring.order ring.seen else ring

  -- `record`: whether the nonce was already there.
  unfoldable pub record_nonce : H → NonceRing H → Bool × NonceRing H
  unfolding evict
  record_nonce hash ring =
      if contains_key hash ring.seen
      then (true, ring)
      else (let ring' = evict ring in
          (false, record { seen = insert hash tt ring'.seen; order = ring'.order ++ (hash ∷ []) }))
