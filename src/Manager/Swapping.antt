-- ===== src/Manager/Swapping.antt =====
-- The change of a workspace's state and the swap of its instance in
-- crates/ne-supervisor/src/workspace.rs, as far as the agreement of the registry and the ledger goes.
use ne_enclave.Common.{
  ◌≡◌, refl, subst, String, string_eq, eq_iff, some, Result, ok, err, inl, inr, Bool-cases, ◌==◌,
}
use ne_enclave.Map.{lookup, insert, remove}
use ne_enclave.Map.Laws.{lookup-insert, lookup-put_back, insert-Unique, remove-Unique}
use ne_enclave.Protocol.Supervisor.{WorkspaceState, running, workspace_state_eq}
use ne_enclave.Capacity.State.{CapacityError, CapacityState, entry_eq}
use ne_enclave.Capacity.Guards.{set_guard_state}
use ne_enclave.Lifecycle.Claims.{LifecycleClaims}
use ne_enclave.Pool.State.{Instance}
use ne_enclave.Manager.State.{WorkspaceManager, FirecrackerWorkspace}
use ne_enclave.Manager.Soundness.{IsSound}
use ne_enclave.Manager.Snapshot.{
  with_state, state_changed, set_workspace_state, swap_state, swap_instance,
}
use ne_enclave.Manager.Changes.{Answered, guard-Answered}

module _ (claims : LifecycleClaims) (m : WorkspaceManager) (id : String) (w : FirecrackerWorkspace)
    (here : lookup id m.instances ≡ some w) (v : IsSound claims m) where
  -- The same instance, at another place of the registry.
  put_back-IsSound :
      (s : CapacityState)
      → IsSound claims (record m { capacity = s })
      → IsSound claims (record m { capacity = s; instances = insert id w (remove id m.instances) })
  put_back-IsSound s u = record {
    claims_kept = u.claims_kept;
    inv = u.inv;
    unique = insert-Unique id w _ (remove-Unique id _ v.unique);
    guarded = u.guarded;
    agree = λ healthy j. elim (Bool-cases (id == j)) [
      | inl same ↦
          rw (lookup-put_back id j w m.instances v.unique, same)
            (rw (← here, (eq_iff id j).0 same) (u.agree healthy j))
      | inr differs ↦ rw (lookup-put_back id j w m.instances v.unique, differs) (u.agree healthy j)
    ];
  }

  -- A change of the state.
  pub set_workspace_state-IsSound :
      {A : Type 0} (done refused : A) (state : WorkspaceState)
      → IsSound claims (set_workspace_state done refused id w state m).1
  unfolding set_workspace_state
  set_workspace_state-IsSound done refused state =
      answered (set_guard_state w.capacity_guard state m.capacity) (
        guard-Answered claims m id w here v (with_state state w).instance _
          (insert-Unique id (with_state state w) m.instances v.unique)
          (λ j. lookup-insert id j (with_state state w) m.instances) m.instances (λ s u. u)
          w.capacity_guard refl)
    where
      answered :
          (x : Result CapacityError (Unit {0}) × CapacityState)
          → Answered claims m id w here v
              (with_state state w).instance
              _
              (insert-Unique id (with_state state w) m.instances v.unique)
              (λ j. lookup-insert id j (with_state state w) m.instances)
              m.instances
              x
          → IsSound claims (state_changed done refused m id w state x).1
      answered (ok _, s) u = u
      answered (err e, s) u = u

  -- The swap of the instance, where the new one runs.
  module _ (instance : Instance) (runs : instance.lifecycle_state ≡ running) where
    swap_state-IsSound :
        IsSound claims
          (swap_state id w instance m (set_guard_state w.capacity_guard running m.capacity)).1
    swap_state-IsSound =
        let new = record instance { workspace_id = id } in
        let w' = record w { instance = new } in
        let unique = insert-Unique id w' _ (remove-Unique id m.instances v.unique) in
        let found_in = λ (j : String). lookup-put_back id j w' m.instances v.unique in
        answered (set_guard_state w.capacity_guard running m.capacity) (
          subst
            (λ (st : WorkspaceState).
              Answered claims m id w here v new _ unique found_in
                (insert id w (remove id m.instances))
                (set_guard_state w.capacity_guard st m.capacity))
            runs
            (guard-Answered claims m id w here v new _ unique found_in
              (insert id w (remove id m.instances)) put_back-IsSound w.capacity_guard refl))
      where
        answered :
            (x : Result CapacityError (Unit {0}) × CapacityState)
            → Answered claims m id w here v
                (record instance { workspace_id = id })
                _
                (insert-Unique id
                  (record w { instance = record instance { workspace_id = id } })
                  _
                  (remove-Unique id m.instances v.unique))
                (λ j. lookup-put_back id j _ m.instances v.unique)
                (insert id w (remove id m.instances))
                x
            → IsSound claims (swap_state id w instance m x).1
        answered (ok _, s) u = u
        answered (err e, s) u = u

    pub swap_instance-IsSound :
        (boot_id : String) → IsSound claims (swap_instance id boot_id instance m).1
    unfolding swap_instance
    swap_instance-IsSound boot_id =
        rw (swap_instance, here)
          (elim (Bool-cases (w.instance.boot_id == boot_id)) [
            | inl same ↦ rw same swap_state-IsSound
            | inr differs ↦ rw differs (put_back-IsSound m.capacity v)
          ])
