-- ===== src/Manager/Checkout.antt =====
-- crates/ne-supervisor/src/workspace.rs: `create_from_pool`, which takes a member of the warm pool, or
-- forks a workspace where no member is alive.
use ne_enclave.Common.{
  Bool, true, false, not, String, string_eq, Option, none, some, List, [], ◌∷◌, Result, ok, err,
  pure, raise, ◌>>=◌, ◌>>◌, ◌==◌, if◌then◌else◌,
}
use ne_enclave.Map.{contains_key}
use ne_enclave.Protocol.Supervisor.{running}
use ne_enclave.Audit.Event.{pool_hit, pool_miss, pool_member_evicted, workspace_created}
use ne_enclave.Capacity.State.{CapacityError, CapacityState}
use ne_enclave.Capacity.Guards.{Guard, adopt_in_place}
use ne_enclave.Pool.State.{Instance, PoolMember, WarmPool, teardown_member}
use ne_enclave.Manager.Requests.{CreateWorkspaceRequest}
use ne_enclave.Manager.Boot.{
  RestoreAnswers, prepare_snapshot_restore, boot_prepared_ready_reset, boot_with_reserved_capacity,
  audit_failure,
}
use ne_enclave.Manager.State.{
  WorkspaceManager, SupervisorErrorKind, Manages, audit_emit, drop_guard, fail_closed,
  register_pending_firecracker, reserved, registered, tier_not_found, invalid_request,
  workspace_already_exists, internal,
}

-- Which members answer the probe of a checkout, and which processes exit when they are terminated.
pub record PoolAnswers : Type 0 where
  pub alive : Instance → Bool
  pub exits : Instance → Bool

abbrev pub set_pool_members : List PoolMember → WorkspaceManager → WorkspaceManager
set_pool_members members m = elim m.pool [
  | none ↦ m
  | some pool ↦ record m { pool = some (record pool { members = members }) }
]

-- The loop: a member that fails its probe is reported and torn down.
unfoldable pub checkout : PoolAnswers → String → List PoolMember → Manages (Option PoolMember)
unfolding teardown_member
checkout answers workspace_id [] m = (ok none, set_pool_members [] m)
checkout answers workspace_id (member ∷ members) m =
    let evicted = record m {
      events =
          record { event_type = pool_member_evicted; workspace_id = some workspace_id } ∷ m.events;
      capacity = teardown_member (answers.exits member.instance) member m.capacity;
    } in
    let rest = checkout answers workspace_id members evicted in
    if answers.alive member.instance
    then (
      ok (
          some (record member {
            instance = record (member.instance) { workspace_id = workspace_id };
          })),
      set_pool_members members m,
    )
    else rest

-- The end of a hit: the guard that the adoption gives, or the end of the instance.
abbrev pub adopted_member :
    PoolAnswers
    → Instance
    → WorkspaceManager
    → Result CapacityError Guard × Guard × CapacityState
    → Result SupervisorErrorKind Guard × WorkspaceManager
adopted_member answers instance m (ok guard, old, s) = (ok guard, record m { capacity = s })
adopted_member answers instance m (err e, old, s) =
    ((if answers.exits instance then drop_guard old else fail_closed) >> raise internal)
      (record m { capacity = s })

unfoldable pub pool_hit_path : PoolAnswers → String → PoolMember → Manages Instance
unfolding adopt_in_place register_pending_firecracker
pool_hit_path answers workspace_id member = do
  guard ← λ m.
      adopted_member answers member.instance m
        (adopt_in_place member.capacity_guard workspace_id running m.capacity)
  register_pending_firecracker (answers.exits member.instance) workspace_id member.instance
      (registered guard)
  audit_emit pool_hit (some workspace_id)
  pure member.instance

unfoldable pub pool_miss_path : RestoreAnswers → String → String → Manages Instance
unfolding prepare_snapshot_restore boot_prepared_ready_reset boot_with_reserved_capacity
    register_pending_firecracker
pool_miss_path answers base_snapshot_id workspace_id = do
  audit_emit pool_miss (some workspace_id)
  manifest ←
      audit_failure workspace_id
        (prepare_snapshot_restore answers.verified base_snapshot_id workspace_id)
  booted ← audit_failure workspace_id (
      boot_with_reserved_capacity workspace_id manifest
        (boot_prepared_ready_reset answers workspace_id manifest))
  register_pending_firecracker answers.exit_confirmed workspace_id booted.0 (reserved booted.1)
  audit_emit workspace_created (some workspace_id)
  pure booted.0

abbrev pub hit_or_miss :
    PoolAnswers → RestoreAnswers → String → String → Option PoolMember → Manages Instance
hit_or_miss pool_answers answers base_snapshot_id workspace_id none =
    pool_miss_path answers base_snapshot_id workspace_id
hit_or_miss pool_answers answers base_snapshot_id workspace_id (some member) =
    pool_hit_path pool_answers workspace_id member

abbrev pub is_some {ℓ} : {A : Type ℓ} → Option A → Bool
is_some none = false
is_some (some a) = true

abbrev pub from_pool :
    PoolAnswers → RestoreAnswers → String → CreateWorkspaceRequest → WarmPool → Manages Instance
from_pool pool_answers answers tier req pool m =
    if not (tier == pool.cfg.tier_name)
    then (err tier_not_found, m)
    else if is_some req.network
    then (err invalid_request, m)
    else if contains_key req.workspace_id m.instances
    then (err workspace_already_exists, m)
    else (checkout pool_answers req.workspace_id pool.members
          >>= hit_or_miss pool_answers answers pool.cfg.base_snapshot_id req.workspace_id)
        m

-- `create_from_pool`.
unfoldable pub create_from_pool :
    PoolAnswers → RestoreAnswers → String → CreateWorkspaceRequest → Manages Instance
unfolding checkout pool_hit_path pool_miss_path
create_from_pool pool_answers answers tier req m = elim m.pool [
  | none ↦ (err tier_not_found, m)
  | some pool ↦ from_pool pool_answers answers tier req pool m
]
