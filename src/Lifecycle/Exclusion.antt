-- ===== src/Lifecycle/Exclusion.antt =====
-- `LifecycleClaims` of crates/ne-supervisor/src/workspace.rs under any interleaving of its callers:
-- one lease to an id.
use ne_enclave.Common.{
  ℕ, ◌+◌, ◌-◌, ◌≤◌, ◌≡◌, refl, arith, Option, none, some, List, [], ◌∷◌, String, ◌==◌,
  if◌then◌else◌, eq_iff, string_eq, zero, suc, Bool-cases, inl, inr, leb,
}
use ne_enclave.Map.{lookup, contains_key, remove, Unique}
use ne_enclave.Map.Laws.{lookup-insert, lookup-remove, insert-Unique, remove-Unique}
use ne_enclave.Lifecycle.Claims.{LifecycleClaims, claim, drop_lease}

-- The ids that are claimed, and the leases that operations hold.
pub record Claimed : Type 0 where
  pub ids : LifecycleClaims
  pub leases : List String

-- How many leases there are on an id.
abbrev pub leases_on : String → List String → ℕ
leases_on id [] = 0
leases_on id (k ∷ ks) = (if k == id then 1 else 0) + leases_on id ks

abbrev pub without_one : String → List String → List String
without_one id [] = []
without_one id (k ∷ ks) = if k == id then ks else k ∷ without_one id ks

pub data ClaimEvent : Type 0 where
  asks ends : String → ClaimEvent

abbrev pub granted : Claimed → Option String × LifecycleClaims → Claimed
granted w (none, ids) = record w { ids = ids }
granted w (some id, ids) = record { ids = ids; leases = id ∷ w.leases }

-- Where no operation holds a lease on the id, none is dropped.
unfoldable pub step : Claimed → ClaimEvent → Claimed
step w (asks id) = granted w (claim id w.ids)
step w (ends id) = elim (leases_on id w.leases) [
  | zero ↦ w
  | suc n ↦ record { ids = drop_lease id w.ids; leases = without_one id w.leases }
]

unfoldable pub run : Claimed → List ClaimEvent → Claimed
run w [] = w
run w (e ∷ es) = run (step w e) es

abbrev pub start : Claimed
start = record { ids = []; leases = [] }

-- An id is claimed where there is one lease on it, and free where there is none.
pub record Matches (w : Claimed) : Type 0 where
  pub unique : Unique w.ids
  pub counted : (id : String) → leases_on id w.leases ≡ (if contains_key id w.ids then 1 else 0)

leases_on-without_one :
    (id j : String) (ks : List String)
    → 1 ≤ leases_on id ks
    → leases_on j (without_one id ks) ≡ leases_on j ks - (if id == j then 1 else 0)
leases_on-without_one id j [] h = absurd (omega arith)
leases_on-without_one id j (k ∷ ks) h =
    ground (arith, eq_iff id j, eq_iff k id, eq_iff k j, leases_on-without_one id j ks)

module _ (w : Claimed) (m : Matches w) (id : String) where
  asks-Matches : Matches (step w (asks id))
  unfolding step claim
  asks-Matches = elim (Bool-cases (contains_key id w.ids)) [
    | inl held ↦ rw held m
    | inr free ↦ rw free (record {
      unique = insert-Unique id tt w.ids m.unique;
      counted =
          λ j. ground (arith, m.counted j, m.counted id, lookup-insert id j tt w.ids, eq_iff id j);
    })
  ]

  dropped-Matches :
      1 ≤ leases_on id w.leases
      → Matches (record { ids = remove id w.ids; leases = without_one id w.leases })
  dropped-Matches h = record {
    unique = remove-Unique id w.ids m.unique;
    counted = λ j. ground (
      arith,
      m.counted j,
      m.counted id,
      lookup-remove id j w.ids m.unique,
      leases_on-without_one id j w.leases,
      eq_iff id j,
    );
  }

  ends-Matches :
      (n : ℕ)
      → leases_on id w.leases ≡ n
      → Matches (elim n [
        | zero ↦ w
        | suc n ↦ record { ids = drop_lease id w.ids; leases = without_one id w.leases }
      ])
  unfolding drop_lease
  ends-Matches zero h = m
  ends-Matches (suc n) h = dropped-Matches (omega arith)

step-Matches : (w : Claimed) (e : ClaimEvent) → Matches w → Matches (step w e)
unfolding step
step-Matches w (asks id) m = asks-Matches w m id
step-Matches w (ends id) m = ends-Matches w m id (leases_on id w.leases) refl

run-Matches : (w : Claimed) (es : List ClaimEvent) → Matches w → Matches (run w es)
unfolding run
run-Matches w [] m = m
run-Matches w (e ∷ es) m = run-Matches (step w e) es (step-Matches w e m)

start-Matches : Matches start
unfolding lookup
start-Matches = record { unique = tt; counted = λ id. refl }

-- From no claims, whatever operations ask for leases and end in whatever order: there is never more
-- than one lease on an id, and asking for an id is granted exactly when no operation holds a lease on
-- it.
pub claim-run :
    (es : List ClaimEvent) (id : String)
    → (leases_on id (run start es).leases ≤ 1)
      × ((claim id (run start es).ids).0
          ≡ (if leb 1 (leases_on id (run start es).leases) then none else some id))
unfolding claim
claim-run es id =
    let m = run-Matches start es start-Matches in
    let c = m.counted id in (ground arith, ground arith)
