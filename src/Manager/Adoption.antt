-- ===== src/Manager/Adoption.antt =====
-- The adoption of a pool member by crates/ne-supervisor/src/workspace.rs, as far as the agreement of
-- the registry and the ledger goes.
use ne_enclave.Common.{
  ℕ, ◌≡◌, refl, not, String, string_eq, eq_iff, arith, none, some, Result, ok, err,
}
use ne_enclave.Map.{lookup, contains_key, remove}
use ne_enclave.Map.Laws.{lookup-insert}
use ne_enclave.Protocol.Supervisor.{WorkspaceState, workspace_state_eq}
use ne_enclave.Capacity.State.{
  CapacityError, CapacityState, workspace, pool, entry_eq, AccountedWorkspace, registered, is_ready,
}
use ne_enclave.Capacity.Edits.{with_workspace, adopt}
use ne_enclave.Capacity.Rules.{healthy_rule, revision_rule, option_rule, if_rule}
use ne_enclave.Capacity.Invariant.{Inv, Edit-Inv}
use ne_enclave.Capacity.Admission.{adopt_entry}
use ne_enclave.Capacity.Guards.{Guard, Handed, hand_over, adopt_in_place, fault_ledger}
use ne_enclave.Lifecycle.Claims.{LifecycleClaims}
use ne_enclave.Manager.State.{WorkspaceManager}
use ne_enclave.Manager.Soundness.{IsPoolGuard, IsSound, IsBooting, faulted-IsSound}

-- What an adoption leaves.
abbrev pub Adopts : LifecycleClaims → String → WorkspaceState → WorkspaceManager → Handed → Type 0
Adopts claims id state m (ok guard, old, s) =
    IsBooting claims id guard (registered state) (record m { capacity = s })
Adopts claims id state m (err e, old, s) =
    IsPoolGuard old × IsSound claims (record m { capacity = s })

module _ (claims : LifecycleClaims) (m : WorkspaceManager) (id : String)
    (free : lookup id m.instances ≡ none) (v : IsSound claims m) (state : WorkspaceState) where
  adopted-IsBooting :
      (i : ℕ) (e : AccountedWorkspace)
      → e.state ≡ registered state
      → Inv (
          with_workspace
            (record (m.capacity) { pool_entries = remove (pool i) m.capacity.pool_entries })
            (workspace id)
            e)
      → IsBooting claims id (some (workspace id)) (registered state) (record m {
        capacity =
            with_workspace
              (record (m.capacity) { pool_entries = remove (pool i) m.capacity.pool_entries })
              (workspace id)
              e;
      })
  adopted-IsBooting i e is_registered inv = record {
    claims_kept = v.claims_kept;
    inv = inv;
    unique = v.unique;
    guarded = v.guarded;
    no_instance = free;
    owns = refl;
    entry = λ healthy. (
      e,
      ground (
        arith,
        lookup-insert (workspace id) (workspace id) e m.capacity.workspaces,
        eq_iff id id,
      ),
      is_registered,
    );
    agree = λ healthy j differs.
        rw (lookup-insert (workspace id) (workspace j) e m.capacity.workspaces, differs)
          (v.agree healthy j);
  }

  pool_adopted :
      (i : ℕ) → Adopts claims id state m (adopt_in_place (some (pool i)) id state m.capacity)
  unfolding adopt_in_place adopt_entry fault_ledger
  pool_adopted i =
      let P = λ (x : Result CapacityError (Unit {0}) × CapacityState).
        Adopts claims id state m (hand_over (pool i) (workspace id) x) in
      healthy_rule P m.capacity _ (tt, v)
        λ healthy.
          if_rule P m.capacity (contains_key (workspace id) m.capacity.workspaces) _ _
            (λ _. (tt, v))
            λ is_new.
              option_rule P m.capacity _ _ _ (λ _. (tt, v))
                λ existing found.
                  if_rule P m.capacity (not (is_ready existing.state)) _ _ (λ _. (tt, v))
                    λ booted.
                      revision_rule P m.capacity _ (tt, v) (tt, faulted-IsSound claims v)
                        λ o.
                          option_rule P m.capacity _ _ _ (λ _. (tt, v))
                            λ entry present. adopted-IsBooting i _ refl (
                              Edit-Inv
                                (adopt (pool i) (workspace id) entry state o (ground arith) present
                                  (ground arith) refl)
                                v.inv)

  pub adopt-Adopts :
      (guard : Guard)
      → IsPoolGuard guard
      → Adopts claims id state m (adopt_in_place guard id state m.capacity)
  unfolding adopt_in_place
  adopt-Adopts none g = (tt, v)
  adopt-Adopts (some (pool i)) g = pool_adopted i
  adopt-Adopts (some (workspace j)) g = elim g [ ]
