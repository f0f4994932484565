-- ===== src/Lifecycle/Claims.antt =====
-- crates/ne-supervisor/src/workspace.rs: `LifecycleClaims`, the leases on workspace ids that keep two
-- operations from owning the same paths. A poisoned lock is entered all the same.
use ne_enclave.Common.{String, string_eq, Option, none, some, if◌then◌else◌}
use ne_enclave.Map.{Map, contains_key, insert, remove}

-- The `HashSet` of ids.
abbrev pub LifecycleClaims : Type 0
LifecycleClaims = Map String (Unit {0})

-- `HashSet::insert` says whether the id is new.
unfoldable pub claim : String → LifecycleClaims → Option String × LifecycleClaims
claim id ids = if contains_key id ids then (none, ids) else (some id, insert id tt ids)

-- `Drop` of a lease.
unfoldable pub drop_lease : String → LifecycleClaims → LifecycleClaims
drop_lease id ids = remove id ids
