-- ===== src/Lifecycle/Replay.antt =====
-- `NonceRing` of crates/ne-supervisor/src/workspace.rs against its specification: a nonce is a replay
-- where it is among the last 256 that were accepted.
use ne_enclave.Common.{
  ℕ, suc, zero, ◌+◌, ◌-◌, ◌≤◌, ◌≡◌, refl, ap, ◌∙◌, sym, Bool, true, false, ◌||◌, arith, List, [],
  ◌∷◌, ◌++◌, length, length-append, drop, any, leb, Eq, ◌==◌, if◌then◌else◌, Bool-cases, inl, inr,
}
use ne_enclave.Map.{Map, lookup, contains_key, insert, Unique}
use ne_enclave.Map.Laws.{lookup-insert, lookup-remove, insert-Unique, remove-Unique}
use ne_enclave.Lifecycle.Nonces.{NonceRing, cap_nonces, empty, evict, evict_front, record_nonce}

drop-append {ℓ} :
    {A : Type ℓ} (k : ℕ) (xs ys : List A) → k ≤ length xs → drop k (xs ++ ys) ≡ drop k xs ++ ys
drop-append zero xs ys h = refl
drop-append (suc k) [] ys h = absurd (omega arith)
drop-append (suc k) (x ∷ xs) ys h = drop-append k xs ys (omega arith)

length-drop {ℓ} : {A : Type ℓ} (k : ℕ) (xs : List A) → length (drop k xs) ≡ length xs - k
length-drop zero xs = omega arith
length-drop (suc k) [] = omega arith
length-drop (suc k) (x ∷ xs) = omega (arith, length-drop k xs)

abbrev tail {ℓ} : {A : Type ℓ} → List A → List A
tail [] = []
tail (x ∷ xs) = xs

tail-drop {ℓ} : {A : Type ℓ} (k : ℕ) (xs : List A) → tail (drop k xs) ≡ drop (suc k) xs
tail-drop zero [] = refl
tail-drop zero (x ∷ xs) = refl
tail-drop (suc k) [] = refl
tail-drop (suc k) (x ∷ xs) = tail-drop k xs

module _ {H : Type 0} ⦃e : Eq H⦄ where
  abbrev pub among : H → List H → Bool
  among h = any (λ x. x == h)

  -- The specification: all nonces that were accepted, the oldest first, and the last 256 of them.
  abbrev pub latest : List H → List H
  latest accepted = drop (length accepted - cap_nonces) accepted

  abbrev pub accept : H → List H → List H
  accept h accepted = if among h (latest accepted) then accepted else accepted ++ (h ∷ [])

  abbrev pub accept_all : List H → List H → List H
  accept_all accepted [] = accepted
  accept_all accepted (h ∷ hs) = accept_all (accept h accepted) hs

  unfoldable pub record_all : NonceRing H → List H → NonceRing H
  record_all ring [] = ring
  record_all ring (h ∷ hs) = record_all (record_nonce h ring).1 hs

  abbrev AllDifferent : List H → Type 0
  AllDifferent [] = Unit
  AllDifferent (x ∷ xs) = (among x xs ≡ false) × AllDifferent xs

  among-append : (h k : H) (xs : List H) → among h (xs ++ (k ∷ [])) ≡ (among h xs || (k == h))
  among-append h k [] = ground arith
  among-append h k (x ∷ xs) = ground (arith, among-append h k xs)

  AllDifferent-append :
      (h : H) (xs : List H) → among h xs ≡ false → AllDifferent xs → AllDifferent (xs ++ (h ∷ []))
  AllDifferent-append h [] new d = (refl, tt)
  AllDifferent-append h (x ∷ xs) new d = (
    ground (arith, among-append x h xs, e.beq_iff h x, e.beq_iff x h),
    AllDifferent-append h xs (ground arith) d.1,
  )

  record Holds (ring : NonceRing H) : Type 0 where
    unique : Unique ring.seen
    different : AllDifferent ring.order
    same : (h : H) → contains_key h ring.seen ≡ among h ring.order

  among_distinct :
      (x h : H) (xs : List H) → among x xs ≡ false → (x == h) ≡ true → among h xs ≡ false
  among_distinct x h xs new eq = rw (← (e.beq_iff x h).0 eq) new

  evict_front-Holds :
      (order : List H) (seen : Map H (Unit {0}))
      → Holds (record { seen = seen; order = order })
      → Holds (evict_front order seen)
  evict_front-Holds [] seen v = v
  evict_front-Holds (old ∷ rest) seen v = record {
    unique = remove-Unique old seen v.unique;
    different = v.different.1;
    same = λ h. elim (Bool-cases (old == h)) [
      | inl eq ↦
          ground
            (arith, lookup-remove old h seen v.unique, among_distinct old h rest v.different.0 eq)
      | inr ne ↦ ground (arith, lookup-remove old h seen v.unique, v.same h)
    ];
  }

  order-evict_front :
      (order : List H) (seen : Map H (Unit {0})) → (evict_front order seen).order ≡ tail order
  order-evict_front [] seen = refl
  order-evict_front (old ∷ rest) seen = refl

  evict-Holds : (ring : NonceRing H) → Holds ring → Holds (evict ring)
  unfolding evict
  evict-Holds ring v = elim (Bool-cases (leb cap_nonces (length ring.order))) [
    | inl full ↦ rw full (evict_front-Holds ring.order ring.seen v)
    | inr room ↦ rw room v
  ]

  order-evict :
      (ring : NonceRing H) (accepted : List H)
      → ring.order ≡ latest accepted
      → (evict ring).order ≡ drop (length accepted + 1 - cap_nonces) accepted
  unfolding evict
  order-evict ring accepted h = elim (Bool-cases (leb cap_nonces (length ring.order))) [
    | inl full ↦
        let long : length accepted + 1 - cap_nonces ≡ suc (length accepted - cap_nonces) =
          ground (arith, length-drop (length accepted - cap_nonces) accepted) in
        rw (full, long)
          (order-evict_front ring.order ring.seen
            ∙ ap tail h
            ∙ tail-drop (length accepted - cap_nonces) accepted)
    | inr room ↦
        let short : length accepted + 1 - cap_nonces ≡ length accepted - cap_nonces =
          ground (arith, length-drop (length accepted - cap_nonces) accepted, ap length h) in
        rw (room, short) h
  ]

  -- The ring holds the last 256 accepted nonces.
  record Refines (ring : NonceRing H) (accepted : List H) : Type 0 where
    holds : Holds ring
    order : ring.order ≡ latest accepted

  pushed : H → NonceRing H → NonceRing H
  pushed h ring = record { seen = insert h tt ring.seen; order = ring.order ++ (h ∷ []) }

  among-tail : (h : H) (xs : List H) → among h xs ≡ false → among h (tail xs) ≡ false
  among-tail h [] new = refl
  among-tail h (x ∷ xs) new = ground arith

  new_after_evict :
      (h : H) (ring : NonceRing H) → among h ring.order ≡ false → among h (evict ring).order ≡ false
  unfolding evict
  new_after_evict h ring new = elim (Bool-cases (leb cap_nonces (length ring.order))) [
    | inl full ↦ rw (full, order-evict_front ring.order ring.seen) (among-tail h ring.order new)
    | inr room ↦ rw room new
  ]

  pushed-Holds :
      (h : H) (ring : NonceRing H) → Holds ring → among h ring.order ≡ false → Holds (pushed h ring)
  unfolding pushed
  pushed-Holds h ring v new = record {
    unique = insert-Unique h tt ring.seen v.unique;
    different = AllDifferent-append h ring.order new v.different;
    same =
        λ k. ground (arith, lookup-insert h k tt ring.seen, among-append k h ring.order, v.same k);
  }

  record_nonce-Refines :
      (h : H) (ring : NonceRing H) (accepted : List H)
      → Refines ring accepted
      → ((record_nonce h ring).0 ≡ among h (latest accepted))
        × Refines (record_nonce h ring).1 (accept h accepted)
  unfolding record_nonce pushed
  record_nonce-Refines h ring accepted r = elim (Bool-cases (contains_key h ring.seen)) [
    | inl old ↦
        let known : among h (latest accepted) ≡ true =
          rw (← r.order) (sym (r.holds.same h) ∙ old) in
        rw (old, known) (refl, r)
    | inr new ↦
        let new' : among h ring.order ≡ false = sym (r.holds.same h) ∙ new in
        let unknown : among h (latest accepted) ≡ false = rw (← r.order) new' in
        rw (new, unknown)
          (
            refl,
            record {
              holds =
                  pushed-Holds h (evict ring) (evict-Holds ring r.holds)
                    (new_after_evict h ring new');
              order =
                  rw (order-evict ring accepted r.order, length-append accepted (h ∷ []))
                    (sym (
                      drop-append (length accepted + 1 - cap_nonces) accepted (h ∷ [])
                        (omega arith)));
            },
          )
  ]

  record_all-Refines :
      (hs : List H) (ring : NonceRing H) (accepted : List H)
      → Refines ring accepted
      → Refines (record_all ring hs) (accept_all accepted hs)
  unfolding record_all
  record_all-Refines [] ring accepted r = r
  record_all-Refines (h ∷ hs) ring accepted r =
      record_all-Refines hs (record_nonce h ring).1 (accept h accepted)
        (record_nonce-Refines h ring accepted r).1

  empty-Refines : Refines empty []
  unfolding lookup
  empty-Refines = record {
    holds = record { unique = tt; different = tt; same = λ h. refl };
    order = refl;
  }

  -- After any nonces that an empty ring was shown: a nonce is reported as a replay exactly when it is
  -- among the last 256 that were accepted, and the ring holds at most 256.
  pub record_nonce-latest :
      (hs : List H) (h : H)
      → ((record_nonce h (record_all empty hs)).0 ≡ among h (latest (accept_all [] hs)))
        × (length (record_all empty hs).order ≤ 256)
  record_nonce-latest hs h =
      let r = record_all-Refines hs empty [] empty-Refines in
      (
        (record_nonce-Refines h (record_all empty hs) (accept_all [] hs) r).0,
        omega (
          arith,
          ap length r.order,
          length-drop (length (accept_all [] hs) - cap_nonces) (accept_all [] hs),
        ),
      )
