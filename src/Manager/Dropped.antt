-- ===== src/Manager/Dropped.antt =====
-- What the drop of a guard in crates/ne-supervisor/src/workspace.rs leaves of the agreement of the
-- registry and the ledger.
use ne_enclave.Common.{
  ℕ, ◌+◌, ◌≡◌, refl, true, false, String, string_eq, eq_iff, arith, none, some, inl, inr,
  Bool-cases, Option-cases, ◌==◌,
}
use ne_enclave.Map.{lookup, remove}
use ne_enclave.Map.Laws.{lookup-remove}
use ne_enclave.Protocol.Supervisor.{workspace_state_eq}
use ne_enclave.Capacity.State.{
  workspace, pool, entry_eq, AccountedWorkspace, WorkspaceCapacityState,
}
use ne_enclave.Capacity.Edits.{IsOpen, drop_workspace, drop_pool}
use ne_enclave.Capacity.Invariant.{Edit-Inv}
use ne_enclave.Capacity.Admission.{remove_entry}
use ne_enclave.Capacity.Guards.{Guard, release_entry, fault_ledger}
use ne_enclave.Lifecycle.Claims.{LifecycleClaims}
use ne_enclave.Manager.State.{WorkspaceManager}
use ne_enclave.Capacity.Dropping.{release_rule}
use ne_enclave.Manager.Soundness.{IsPoolGuard, IsSound, IsBooting, faulted-IsSound, faulted_booting}

module _ (claims : LifecycleClaims) (m : WorkspaceManager) where
  -- The end of a boot: its guard drops.
  module _ (id : String) (state : WorkspaceCapacityState)
      (v : IsBooting claims id (some (workspace id)) state m) where
    no_entry : m.capacity.faulted ≡ false → (remove_entry (workspace id) m.capacity).0 ≡ false → ⊥
    unfolding remove_entry
    no_entry healthy gone = let (e, found, _) = v.entry healthy in ground arith

    still_faulted : m.capacity.faulted ≡ true → IsSound claims m
    still_faulted h = record {
      claims_kept = v.claims_kept;
      inv = v.inv;
      unique = v.unique;
      guarded = v.guarded;
      agree = λ healthy. cc;
    }

    removed_entry :
        (e : AccountedWorkspace)
        → lookup (workspace id) m.capacity.workspaces ≡ some e
        → IsOpen m.capacity
        → IsSound claims (record m {
          capacity = record (m.capacity) {
            workspaces = remove (workspace id) m.capacity.workspaces;
            revision = m.capacity.revision + 1;
          };
        })
    removed_entry e found o = record {
      claims_kept = v.claims_kept;
      inv = Edit-Inv (drop_workspace (workspace id) e o found refl) v.inv;
      unique = v.unique;
      guarded = v.guarded;
      agree = λ healthy j. elim (Bool-cases (id == j)) [
        | inl same ↦
            rw
              (
                lookup-remove (workspace id) (workspace j) m.capacity.workspaces
                    v.inv.unique_workspaces,
                same,
                ← (eq_iff id j).0 same,
                v.no_instance,
              )
              tt
        | inr differs ↦
            rw
              (
                lookup-remove (workspace id) (workspace j) m.capacity.workspaces
                    v.inv.unique_workspaces,
                differs,
              )
              (v.agree healthy j differs)
      ];
    }

    pub dropped-IsSound :
        IsSound claims (record m { capacity = release_entry (some (workspace id)) m.capacity })
    unfolding remove_entry fault_ledger
    dropped-IsSound =
        release_rule (λ s. IsSound claims (record m { capacity = s })) (workspace id) m.capacity
          still_faulted (faulted_booting claims v) (λ o gone. absurd (no_entry o.healthy gone))
          λ o there. let (e, found, _) = v.entry o.healthy in removed_entry e found o

  -- A guard of the pool drops.
  module _ (v : IsSound claims m) where
    pool_dropped-IsSound :
        (i : ℕ) → IsSound claims (record m { capacity = release_entry (some (pool i)) m.capacity })
    unfolding remove_entry fault_ledger
    pool_dropped-IsSound i =
        release_rule (λ s. IsSound claims (record m { capacity = s })) (pool i) m.capacity (λ _. v)
          (faulted-IsSound claims v) (λ _ _. v)
          λ o there. elim (Option-cases (lookup (pool i) m.capacity.pool_entries)) [
            | inl none_there ↦ absurd (ground arith)
            | inr (e, found) ↦ record {
              claims_kept = v.claims_kept;
              inv = Edit-Inv (drop_pool (pool i) e o found refl) v.inv;
              unique = v.unique;
              guarded = v.guarded;
              agree = v.agree;
            }
          ]

    pub pool_guard_dropped-IsSound :
        (guard : Guard)
        → IsPoolGuard guard
        → IsSound claims (record m { capacity = release_entry guard m.capacity })
    unfolding release_entry
    pool_guard_dropped-IsSound none g = v
    pool_guard_dropped-IsSound (some (pool i)) g = pool_dropped-IsSound i
    pool_guard_dropped-IsSound (some (workspace id)) g = elim g [ ]
