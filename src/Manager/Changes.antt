-- ===== src/Manager/Changes.antt =====
-- The change of a registered workspace's instance in crates/ne-supervisor/src/workspace.rs, in the
-- registry and in the ledger together.
use ne_enclave.Common.{
  ◌≡◌, refl, ap, sym, subst, ◌∙◌, false, String, string_eq, eq_iff, arith, Option, none, some,
  Result, ok, err, inl, inr, Bool-cases, ◌==◌, if◌then◌else◌,
}
use ne_enclave.Map.{Map, lookup, Unique}
use ne_enclave.Map.Laws.{lookup-insert}
use ne_enclave.Protocol.Supervisor.{WorkspaceState, same_state_iff, workspace_state_eq}
use ne_enclave.Capacity.State.{
  CapacityError, CapacityState, workspace, entry_eq, AccountedWorkspace, WorkspaceCapacityState,
  reserved, registered, registered_state,
}
use ne_enclave.Capacity.Edits.{IsOpen, with_workspace, set_workspace}
use ne_enclave.Capacity.Rules.{healthy_rule, revision_rule, option_rule, if_rule}
use ne_enclave.Capacity.Invariant.{Edit-Inv}
use ne_enclave.Capacity.Admission.{set_entry_state}
use ne_enclave.Capacity.Guards.{Guard, set_guard_state, fault_ledger}
use ne_enclave.Lifecycle.Claims.{LifecycleClaims}
use ne_enclave.Pool.State.{Instance}
use ne_enclave.Manager.State.{WorkspaceManager, FirecrackerWorkspace}
use ne_enclave.Manager.Soundness.{Agrees, IsSound, faulted-IsSound}

registered_state_lem :
    (st : WorkspaceCapacityState) (c : WorkspaceState)
    → registered_state st ≡ some c
    → st ≡ registered c
registered_state_lem reserved c is_registered = ground arith
registered_state_lem (registered state) c is_registered = ground arith

module _ (claims : LifecycleClaims) (m : WorkspaceManager) (id : String) (w : FirecrackerWorkspace)
    (here : lookup id m.instances ≡ some w) (v : IsSound claims m) where
  -- What a healthy ledger says of a registered workspace.
  pub guard_at : m.capacity.faulted ≡ false → w.capacity_guard ≡ some (workspace id)
  guard_at healthy =
      let a =
        subst (λ o. Agrees id o (lookup (workspace id) m.capacity.workspaces)) here
          (v.agree healthy id) in
      owned (lookup (workspace id) m.capacity.workspaces) a
    where
      owned :
          (o : Option AccountedWorkspace)
          → Agrees id (some w) o
          → w.capacity_guard ≡ some (workspace id)
      owned none a = elim a [ ]
      owned (some e) a = a.0

  -- A registry in which another instance stands in the place of the workspace's.
  module _ (instance : Instance) (instances : Map String FirecrackerWorkspace)
      (unique : Unique instances)
      (found_in : (j : String)
        → lookup j instances ≡ (
            if id == j
            then some (record w { instance = instance })
            else lookup j m.instances)) where
    same_entry_IsSound :
        (e : AccountedWorkspace)
        → lookup (workspace id) m.capacity.workspaces ≡ some e
        → e.state ≡ registered instance.lifecycle_state
        → IsSound claims (record m { instances = instances })
    same_entry_IsSound e found agrees = record {
      claims_kept = v.claims_kept;
      inv = v.inv;
      unique = unique;
      guarded = v.guarded;
      agree = λ healthy j. elim (Bool-cases (id == j)) [
        | inl same ↦ rw (found_in j, same, ← (eq_iff id j).0 same, found) (guard_at healthy, agrees)
        | inr differs ↦ rw (found_in j, differs) (v.agree healthy j)
      ];
    }

    new_entry_IsSound :
        (e e' : AccountedWorkspace)
        → IsOpen m.capacity
        → lookup (workspace id) m.capacity.workspaces ≡ some e
        → e' ≡ record e { state = registered instance.lifecycle_state }
        → IsSound claims (record m {
          capacity = with_workspace m.capacity (workspace id) e';
          instances = instances;
        })
    new_entry_IsSound e e' o found shape = record {
      claims_kept = v.claims_kept;
      inv =
          Edit-Inv
            (set_workspace (workspace id) e instance.lifecycle_state o found
              (ap (with_workspace m.capacity (workspace id)) shape))
            v.inv;
      unique = unique;
      guarded = v.guarded;
      agree = λ healthy j. elim (Bool-cases (id == j)) [
        | inl same ↦
            rw
              (
                found_in j,
                lookup-insert (workspace id) (workspace j) e' m.capacity.workspaces,
                same,
                ← (eq_iff id j).0 same,
                shape,
              )
              (guard_at healthy, refl)
        | inr differs ↦
            rw
              (
                found_in j,
                lookup-insert (workspace id) (workspace j) e' m.capacity.workspaces,
                differs,
              )
              (v.agree healthy j)
      ];
    }

    -- What an answer of the ledger leaves: the new registry where it agreed, another where it did not.
    abbrev pub Answered :
        Map String FirecrackerWorkspace → Result CapacityError (Unit {0}) × CapacityState → Type 0
    Answered old (ok _, s) = IsSound claims (record m { capacity = s; instances = instances })
    Answered old (err e, s) = IsSound claims (record m { capacity = s; instances = old })

    -- The registry that stays where the ledger refuses.
    module _ (old : Map String FirecrackerWorkspace)
        (kept : (s : CapacityState)
          → IsSound claims (record m { capacity = s })
          → IsSound claims (record m { capacity = s; instances = old })) where
      pub guard-Answered :
          (guard : Guard)
          → w.capacity_guard ≡ guard
          → Answered old (set_guard_state guard instance.lifecycle_state m.capacity)
      unfolding set_guard_state set_entry_state fault_ledger
      guard-Answered none owns = kept m.capacity v
      guard-Answered (some k) owns =
          let P = Answered old in
          let refused = kept m.capacity v in
          healthy_rule P m.capacity _ refused λ healthy.
            option_rule P m.capacity _ _ _ (λ _. refused)
              λ existing found.
                option_rule P m.capacity _ _ _ (λ _. refused)
                  λ current is_registered.
                    let mine : k ≡ workspace id = ground (arith, guard_at healthy) in
                    if_rule P m.capacity (current == instance.lifecycle_state) _ _
                      (λ same.
                        same_entry_IsSound existing
                          (subst (λ j. lookup j m.capacity.workspaces ≡ some existing) mine found)
                          (registered_state_lem existing.state current is_registered
                            ∙ ap registered ((same_state_iff current _).0 same)))
                      λ differs.
                        revision_rule P m.capacity _ refused (kept _ (faulted-IsSound claims v))
                          λ o.
                            option_rule P m.capacity _ _ _ (λ _. refused)
                              λ entry present.
                                subst
                                  (λ j. P (
                                    ok tt,
                                    with_workspace m.capacity j (record entry {
                                      state = registered instance.lifecycle_state;
                                    }),
                                  ))
                                  (sym mine)
                                  (new_entry_IsSound entry _ o
                                    (subst (λ j. lookup j m.capacity.workspaces ≡ some entry) mine
                                      present)
                                    refl)
