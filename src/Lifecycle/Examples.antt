-- ===== src/Lifecycle/Examples.antt =====
-- Concrete runs of the bookkeeping of crates/ne-supervisor/src/workspace.rs.
use ne_enclave.Common.{
  ◌≤◌, ◌≡◌, refl, true, false, none, some, String, string_eq, List, [], ◌∷◌, length, leb,
  if◌then◌else◌,
}
use ne_enclave.Lifecycle.Tasks.{
  new, close, begin, drop_permit, spawn_operation, spawn_cleanup, wait_returns,
}
use ne_enclave.Lifecycle.Draining.{TaskEvent, operation, cleanup, ends, step, run, start, shut_down}
use ne_enclave.Lifecycle.Claims.{claim}
use ne_enclave.Lifecycle.Exclusion as Leases
use ne_enclave.Lifecycle.Nonces.{record_nonce, empty}
use ne_enclave.Lifecycle.Replay.{record_all, among, latest, accept_all, record_nonce-latest}

-- Two operations, one of which ends before the shutdown; the other starts a cleanup before it ends.
abbrev before : List TaskEvent
before = operation true ∷ operation true ∷ ends ∷ []

-- While it waits, a cleanup begins, one operation ends, and another is refused.
abbrev while_waiting : List TaskEvent
while_waiting = cleanup true ∷ ends ∷ operation true ∷ []

one_left : (shut_down before while_waiting).live ≡ 1
unfolding run step new spawn_operation spawn_cleanup begin drop_permit close
one_left = refl

still_waits : wait_returns (run start before).tasks ≡ false
unfolding run step new spawn_operation begin drop_permit wait_returns
still_waits = refl

-- The second task is refused while the first holds the id.
abbrev asked : List Leases.ClaimEvent
asked = Leases.asks "a" ∷ Leases.asks "a" ∷ Leases.asks "b" ∷ Leases.ends "b" ∷ []

claim-run_example :
    (Leases.leases_on "a" (Leases.run Leases.start asked).leases ≤ 1)
    × ((claim "a" (Leases.run Leases.start asked).ids).0 ≡ (
        if leb 1 (Leases.leases_on "a" (Leases.run Leases.start asked).leases)
        then none
        else some "a"))
claim-run_example = Leases.claim-run asked "a"

abbrev shown : List String
shown = "n1" ∷ "n2" ∷ "n1" ∷ []

record_nonce-latest_example :
    ((record_nonce "n1" (record_all empty shown)).0 ≡ among "n1" (latest (accept_all [] shown)))
    × (length (record_all empty shown).order ≤ 256)
record_nonce-latest_example = record_nonce-latest shown "n1"
