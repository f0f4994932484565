-- ===== src/Manager/Soundness.antt =====
-- The registry of crates/ne-supervisor/src/workspace.rs against the ledger that it accounts in: what
-- agrees between operations, and what an operation holds while it boots a workspace.
use ne_enclave.Common.{
  ◌≡◌, false, String, string_eq, eq_iff, Option, none, some, List, All, inl, inr, Bool-cases, ◌==◌,
}
use ne_enclave.Map.{lookup, insert, Unique}
use ne_enclave.Map.Laws.{lookup-insert, insert-Unique}
use ne_enclave.Protocol.Supervisor.{running, workspace_state_eq}
use ne_enclave.Capacity.State.{
  workspace, pool, entry_eq, AccountedWorkspace, WorkspaceCapacityState, registered,
}
use ne_enclave.Capacity.Invariant.{Inv}
use ne_enclave.Capacity.History.{fault-Inv}
use ne_enclave.Capacity.Guards.{Guard, fault_ledger}
use ne_enclave.Lifecycle.Claims.{LifecycleClaims}
use ne_enclave.Pool.State.{WarmPool, PoolMember, Instance}
use ne_enclave.Manager.State.{WorkspaceManager, FirecrackerWorkspace}

-- An instance has its guard, and its entry the same state.
abbrev pub Agrees : String → Option FirecrackerWorkspace → Option AccountedWorkspace → Type 0
Agrees id none none = Unit
Agrees id (some w) (some e) =
    (w.capacity_guard ≡ some (workspace id)) × (e.state ≡ registered w.instance.lifecycle_state)
Agrees id _ _ = ⊥

abbrev pub AgreeAt : String → WorkspaceManager → Type 0
AgreeAt id m = Agrees id (lookup id m.instances) (lookup (workspace id) m.capacity.workspaces)

-- The members of the pool run, and own entries of the pool.
abbrev pub IsPoolGuard : Guard → Type 0
IsPoolGuard none = Unit
IsPoolGuard (some (pool i)) = Unit
IsPoolGuard (some (workspace id)) = ⊥

abbrev pub PoolGuards : List PoolMember → Type 0
PoolGuards =
    All (λ member. IsPoolGuard member.capacity_guard × (member.instance.lifecycle_state ≡ running))

abbrev pub MembersGuarded : Option WarmPool → Type 0
MembersGuarded none = Unit
MembersGuarded (some warm) = PoolGuards warm.members

-- Between operations: the leases are those in `claims`, and while the ledger takes changes, the
-- registry and the ledger agree on every id.
pub record IsSound (claims : LifecycleClaims) (m : WorkspaceManager) : Type 0 where
  pub claims_kept : m.lifecycle_claims ≡ claims
  pub inv : Inv m.capacity
  pub unique : Unique m.instances
  pub guarded : MembersGuarded m.pool
  pub agree : m.capacity.faulted ≡ false → (id : String) → AgreeAt id m

-- While an operation boots `id`: its guard owns an entry in the state `state`, which has no instance
-- yet, and everything else agrees.
pub record IsBooting (claims : LifecycleClaims) (id : String) (guard : Guard)
    (state : WorkspaceCapacityState) (m : WorkspaceManager) : Type 0 where
  pub claims_kept : m.lifecycle_claims ≡ claims
  pub inv : Inv m.capacity
  pub unique : Unique m.instances
  pub guarded : MembersGuarded m.pool
  pub no_instance : lookup id m.instances ≡ none
  pub owns : guard ≡ some (workspace id)
  pub entry :
      m.capacity.faulted ≡ false
      → (e : AccountedWorkspace) × (lookup (workspace id) m.capacity.workspaces ≡ some e)
        × (e.state ≡ state)
  pub agree : m.capacity.faulted ≡ false → (j : String) → (id == j) ≡ false → AgreeAt j m

module _ (claims : LifecycleClaims) where
  -- A faulted ledger claims nothing.
  pub faulted-IsSound :
      {m : WorkspaceManager}
      → IsSound claims m
      → IsSound claims (record m { capacity = fault_ledger m.capacity })
  unfolding fault_ledger
  faulted-IsSound {m} v = record {
    claims_kept = v.claims_kept;
    inv = fault-Inv m.capacity v.inv;
    unique = v.unique;
    guarded = v.guarded;
    agree = λ h. cc;
  }

  pub faulted_booting :
      {id : String} {guard : Guard} {state : WorkspaceCapacityState} {m : WorkspaceManager}
      → IsBooting claims id guard state m
      → IsSound claims (record m { capacity = fault_ledger m.capacity })
  unfolding fault_ledger
  faulted_booting {m = m} v = record {
    claims_kept = v.claims_kept;
    inv = fault-Inv m.capacity v.inv;
    unique = v.unique;
    guarded = v.guarded;
    agree = λ h. cc;
  }

  -- The registration under the registry's lock.
  pub inserted-IsSound :
      {id : String} {guard : Guard} {m : WorkspaceManager} (instance : Instance)
      → IsBooting claims id guard (registered instance.lifecycle_state) m
      → IsSound claims (record m {
        instances = insert id (record { instance = instance; capacity_guard = guard }) m.instances;
      })
  inserted-IsSound {id} {guard} {m} instance v = record {
    claims_kept = v.claims_kept;
    inv = v.inv;
    unique = insert-Unique id _ m.instances v.unique;
    guarded = v.guarded;
    agree = λ healthy j. elim (Bool-cases (id == j)) [
      | inl same ↦
          let e = v.entry healthy in
          rw
            (
              lookup-insert id j (record { instance = instance; capacity_guard = guard })
                  m.instances,
              same,
              ← (eq_iff id j).0 same,
              e.1,
            )
            (v.owns, e.2)
      | inr differs ↦
          rw
            (
              lookup-insert id j (record { instance = instance; capacity_guard = guard })
                  m.instances,
              differs,
            )
            (v.agree healthy j differs)
    ];
  }
