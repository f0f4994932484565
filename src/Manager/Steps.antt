-- ===== src/Manager/Steps.antt =====
-- Each step of crates/ne-supervisor/src/workspace.rs that changes the ledger, as far as the agreement
-- of the registry and the ledger goes.
use ne_enclave.Common.{
  ℕ, ◌≡◌, refl, not, String, string_eq, eq_iff, arith, none, some, Result, ok, err,
}
use ne_enclave.Map.{lookup, contains_key}
use ne_enclave.Map.Laws.{lookup-insert}
use ne_enclave.Protocol.Supervisor.{WorkspaceState, workspace_state_eq}
use ne_enclave.Capacity.State.{
  CapacityError, CapacityState, CapacityEntryId, workspace, entry_eq, AccountedWorkspace, reserved,
  registered, is_reserved,
}
use ne_enclave.Capacity.Edits.{with_workspace, reserve_workspace, set_workspace}
use ne_enclave.Capacity.Rules.{healthy_rule, room_rule, revision_rule, option_rule, if_rule}
use ne_enclave.Capacity.Invariant.{Inv, Edit-Inv}
use ne_enclave.Capacity.History.{fault-Inv}
use ne_enclave.Capacity.Admission.{reserve_workspace_entry, register_entry}
use ne_enclave.Capacity.Guards.{Guard, Handed, hand_over, register_in_place, fault_ledger}
use ne_enclave.Lifecycle.Claims.{LifecycleClaims}
use ne_enclave.Manager.State.{WorkspaceManager, SupervisorErrorKind, reserved_as}
use ne_enclave.Manager.Soundness.{IsSound, IsBooting, faulted-IsSound}

-- What a reservation leaves.
abbrev pub Reserves :
    LifecycleClaims → String → Result SupervisorErrorKind Guard × WorkspaceManager → Type 0
Reserves claims id (ok guard, m) = IsBooting claims id guard reserved m
Reserves claims id (err kind, m) = IsSound claims m

-- What the promotion of a reservation leaves.
abbrev pub Promotes : LifecycleClaims → String → WorkspaceState → WorkspaceManager → Handed → Type 0
Promotes claims id state m (ok guard, old, s) =
    IsBooting claims id guard (registered state) (record m { capacity = s })
Promotes claims id state m (err e, old, s) =
    IsBooting claims id old reserved (record m { capacity = s })

module _ (claims : LifecycleClaims) (m : WorkspaceManager) where
  module _ (id : String) (free : lookup id m.instances ≡ none) (v : IsSound claims m) where
    entry-IsBooting :
        (e : AccountedWorkspace)
        → Inv (with_workspace m.capacity (workspace id) e)
        → IsBooting claims id
            (some (workspace id))
            e.state
            (record m { capacity = with_workspace m.capacity (workspace id) e })
    entry-IsBooting e inv = record {
      claims_kept = v.claims_kept;
      inv = inv;
      unique = v.unique;
      guarded = v.guarded;
      no_instance = free;
      owns = refl;
      entry = λ healthy. (
        e,
        ground (
          arith,
          lookup-insert (workspace id) (workspace id) e m.capacity.workspaces,
          eq_iff id id,
        ),
        refl,
      );
      agree = λ healthy j differs.
          rw (lookup-insert (workspace id) (workspace j) e m.capacity.workspaces, differs)
            (v.agree healthy j);
    }

    pub reserve-Reserves :
        (cpu memory : ℕ)
        → Reserves claims id
            (reserved_as (λ k. some k) m (reserve_workspace_entry id cpu memory m.capacity))
    unfolding reserve_workspace_entry fault_ledger
    reserve-Reserves cpu memory =
        let P = λ (x : Result CapacityError CapacityEntryId × CapacityState).
          Reserves claims id (reserved_as (λ k. some k) m x) in
        healthy_rule P m.capacity _ v λ healthy. room_rule P m.capacity _ v v λ room.
          revision_rule P m.capacity _ v (faulted-IsSound claims v) λ o.
            if_rule P m.capacity (contains_key (workspace id) m.capacity.workspaces) _ _ (λ _. v)
              λ is_new.
                entry-IsBooting _
                  (Edit-Inv (reserve_workspace id cpu memory o room (ground arith) refl) v.inv)

  -- The promotion of a reservation.
  module _ (id : String) (state : WorkspaceState)
      (v : IsBooting claims id (some (workspace id)) reserved m) where
    with_entry :
        (e e' : AccountedWorkspace)
        → lookup (workspace id) m.capacity.workspaces ≡ some e
        → Inv (with_workspace m.capacity (workspace id) e')
        → IsBooting claims id
            (some (workspace id))
            e'.state
            (record m { capacity = with_workspace m.capacity (workspace id) e' })
    with_entry e e' found inv = record {
      claims_kept = v.claims_kept;
      inv = inv;
      unique = v.unique;
      guarded = v.guarded;
      no_instance = v.no_instance;
      owns = refl;
      entry = λ healthy. (
        e',
        ground (
          arith,
          lookup-insert (workspace id) (workspace id) e' m.capacity.workspaces,
          eq_iff id id,
        ),
        refl,
      );
      agree = λ healthy j differs.
          rw (lookup-insert (workspace id) (workspace j) e' m.capacity.workspaces, differs)
            (v.agree healthy j differs);
    }

    faulted_reserved :
        IsBooting claims id
          (some (workspace id))
          reserved
          (record m { capacity = fault_ledger m.capacity })
    unfolding fault_ledger
    faulted_reserved = record {
      claims_kept = v.claims_kept;
      inv = fault-Inv m.capacity v.inv;
      unique = v.unique;
      guarded = v.guarded;
      no_instance = v.no_instance;
      owns = refl;
      entry = λ h. absurd (cc);
      agree = λ h. cc;
    }

    pub register-Promotes :
        Promotes claims id state m (register_in_place (some (workspace id)) state m.capacity)
    unfolding register_in_place register_entry fault_ledger
    register-Promotes =
        let P = λ (x : Result CapacityError (Unit {0}) × CapacityState).
          Promotes claims id state m (hand_over (workspace id) (workspace id) x) in
        healthy_rule P m.capacity _ v λ healthy.
          option_rule P m.capacity _ _ _ (λ _. v)
            λ existing found.
              if_rule P m.capacity (not (is_reserved existing.state)) _ _ (λ _. v)
                λ is_new. revision_rule P m.capacity _ v faulted_reserved λ o.
                  option_rule P m.capacity _ _ _ (λ _. v)
                    λ entry present.
                      with_entry entry _ present
                        (Edit-Inv (set_workspace (workspace id) entry state o present refl) v.inv)
