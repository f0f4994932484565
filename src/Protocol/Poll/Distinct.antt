-- ===== src/Protocol/Poll/Distinct.antt =====
-- Lists without repetition, as crates/ne-protocol/src/fleet.rs finds them with a set.
use ne_enclave.Common.{false, ◌≡◌, ◌↔◌, arith, List, [], ◌∷◌, Eq}
use ne_enclave.Protocol.Fleet.{contains, has_duplicates, has_duplicates_from}
use ne_enclave.Protocol.Poll.{attempt_eq}

module _ {ℓ} {A : Type ℓ} ⦃e : Eq A⦄ where
  -- `a` is none of the elements.
  abbrev pub Fresh : A → List A → Type ℓ
  Fresh a [] = Unit
  Fresh a (b ∷ l) = (¬ (b ≡ a)) × Fresh a l

  -- No element stands twice in the list, or in `seen`.
  abbrev pub Distinct : List A → List A → Type ℓ
  Distinct seen [] = Unit
  Distinct seen (a ∷ l) = Fresh a seen × Distinct (a ∷ seen) l

  pub contains-Fresh : (seen : List A) (a : A) → (contains seen a ≡ false) ↔ Fresh a seen
  unfolding contains
  contains-Fresh [] a = ground arith
  contains-Fresh (b ∷ seen) a = ground (arith, e.beq_iff b a, contains-Fresh seen a)

  has_duplicates_from-Distinct :
      (seen l : List A) → (has_duplicates_from seen l ≡ false) ↔ Distinct seen l
  unfolding has_duplicates_from
  has_duplicates_from-Distinct seen [] = ground arith
  has_duplicates_from-Distinct seen (a ∷ l) =
      ground (arith, contains-Fresh seen a, has_duplicates_from-Distinct (a ∷ seen) l)

  pub has_duplicates-Distinct : (l : List A) → (has_duplicates l ≡ false) ↔ Distinct [] l
  unfolding has_duplicates
  has_duplicates-Distinct l = has_duplicates_from-Distinct [] l
