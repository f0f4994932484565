-- ===== src/Map/Laws.antt =====
-- The laws of maps that the components use: what a lookup finds after an update, the size after an
-- update, and that updates keep one entry to a key.
use ne_enclave.Common.{
  ◌+◌, ◌≡◌, refl, none, some, [], ◌∷◌, arith, length, if◌then◌else◌, Eq, ◌==◌, beq_refl,
}
use ne_enclave.Map.{Map, lookup, insert, remove, Unique}

module _ {ℓ κ} {K : Type ℓ} {V : Type κ} ⦃e : Eq K⦄ where
  pub lookup-insert :
      (k j : K) (v : V) (m : Map K V)
      → lookup j (insert k v m) ≡ (if k == j then some v else lookup j m)
  unfolding lookup insert
  lookup-insert k j v [] = refl
  lookup-insert k j v ((i, x) ∷ rest) =
      ground (arith, e.beq_iff i k, e.beq_iff i j, e.beq_iff k j, lookup-insert k j v rest)

  pub lookup-insert_self : (k : K) (v : V) (m : Map K V) → lookup k (insert k v m) ≡ some v
  lookup-insert_self k v m = simp (lookup-insert, beq_refl)

  pub lookup-remove :
      (k j : K) (m : Map K V)
      → Unique m
      → lookup j (remove k m) ≡ (if k == j then none else lookup j m)
  unfolding lookup remove
  lookup-remove k j [] u = ground arith
  lookup-remove k j ((i, w) ∷ m) u =
      ground (arith, e.beq_iff k j, e.beq_iff i k, e.beq_iff i j, lookup-remove k j m u.1)

  -- A key that is taken out and put in again.
  pub lookup-put_back :
      (k j : K) (v : V) (m : Map K V)
      → Unique m
      → lookup j (insert k v (remove k m)) ≡ (if k == j then some v else lookup j m)
  lookup-put_back k j v m u =
      ground (arith, lookup-insert k j v (remove k m), lookup-remove k j m u)

  pub insert-Unique : (k : K) (v : V) (m : Map K V) → Unique m → Unique (insert k v m)
  unfolding lookup insert
  insert-Unique k v [] u = (refl, tt)
  insert-Unique k v ((i, w) ∷ m) u =
      ground (arith, e.beq_iff i k, e.beq_iff k i, lookup-insert k i v m, insert-Unique k v m u.1)

  pub remove-Unique : (k : K) (m : Map K V) → Unique m → Unique (remove k m)
  unfolding lookup remove
  remove-Unique k [] u = tt
  remove-Unique k ((i, w) ∷ m) u =
      ground (arith, e.beq_iff i k, lookup-remove k i m u.1, remove-Unique k m u.1)

  pub length-insert_new :
      (k : K) (v : V) (m : Map K V) → lookup k m ≡ none → length (insert k v m) ≡ length m + 1
  unfolding lookup insert
  length-insert_new k v [] h = omega arith
  length-insert_new k v ((i, w) ∷ m) h = ground (arith, length-insert_new k v m)

  pub length-insert_old :
      (k : K) (v w : V) (m : Map K V) → lookup k m ≡ some w → length (insert k v m) ≡ length m
  unfolding lookup insert
  length-insert_old k v w [] h = ground arith
  length-insert_old k v w ((i, x) ∷ m) h = ground (arith, length-insert_old k v w m)

  pub length-remove :
      (k : K) (v : V) (m : Map K V) → lookup k m ≡ some v → length (remove k m) + 1 ≡ length m
  unfolding lookup remove
  length-remove k v [] h = ground arith
  length-remove k v ((i, w) ∷ m) h = ground (arith, length-remove k v m)

  pub remove_absent : (k : K) (m : Map K V) → lookup k m ≡ none → remove k m ≡ m
  unfolding lookup remove
  remove_absent k [] h = refl
  remove_absent k ((i, w) ∷ m) h = ground (arith, remove_absent k m)

  pub remove-insert_new :
      (k : K) (v : V) (m : Map K V) → lookup k m ≡ none → remove k (insert k v m) ≡ m
  unfolding lookup remove insert
  remove-insert_new k v [] h = ground (arith, e.beq_iff k k)
  remove-insert_new k v ((i, w) ∷ m) h = ground (arith, remove-insert_new k v m)
