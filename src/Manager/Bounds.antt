-- ===== src/Manager/Bounds.antt =====
-- How many workspaces the registry of crates/ne-supervisor/src/workspace.rs holds, against the ceiling
-- of the ledger.
use ne_enclave.Common.{
  ◌≡◌, refl, subst, false, String, string_eq, eq_iff, arith, Option, none, some, List, [], ◌∷◌,
  ◌==◌,
}
use ne_enclave.Map.{Map, lookup, remove, Unique}
use ne_enclave.Map.Laws.{lookup-remove, remove-Unique}
use ne_enclave.Protocol.Supervisor.{workspace_state_eq}
use ne_enclave.Capacity.State.{CapacityEntryId, workspace, entry_eq, AccountedWorkspace}
use ne_enclave.Lifecycle.Claims.{LifecycleClaims}
use ne_enclave.Manager.State.{WorkspaceManager, FirecrackerWorkspace}
use ne_enclave.Manager.Soundness.{Agrees, IsSound}
use ne_enclave.Common.{length, ◌≤◌}
use ne_enclave.Map.Laws.{length-remove}
use ne_enclave.Manager.Histories.{Call, run, run-IsSound}

-- Every id of the registry has its entry.
abbrev Covered : Map String FirecrackerWorkspace → Map CapacityEntryId AccountedWorkspace → Type 0
Covered a b =
    (id : String) (w : FirecrackerWorkspace)
    → lookup id a ≡ some w
    → (e : AccountedWorkspace) × (lookup (workspace id) b ≡ some e)

rest-Covered :
    (id : String) (w : FirecrackerWorkspace) (a : Map String FirecrackerWorkspace)
    (b : Map CapacityEntryId AccountedWorkspace)
    → lookup id a ≡ none
    → Unique b
    → Covered ((id, w) ∷ a) b
    → Covered a (remove (workspace id) b)
unfolding lookup
rest-Covered id w a b absent unique covers j x found =
    let differs : (id == j) ≡ false = ground (arith, eq_iff id j) in
    let (e, there) = covers j x (ground arith) in
    (e, ground (arith, lookup-remove (workspace id) (workspace j) b unique))

length-Covered :
    (a : Map String FirecrackerWorkspace) (b : Map CapacityEntryId AccountedWorkspace)
    → Unique a
    → Unique b
    → Covered a b
    → length a ≤ length b
unfolding lookup
length-Covered [] b u unique covers = omega arith
length-Covered ((id, w) ∷ a) b u unique covers =
    let (e, there) = covers id w (ground (arith, eq_iff id id)) in
    let rest =
      length-Covered a (remove (workspace id) b) u.1 (remove-Unique (workspace id) b unique)
        (rest-Covered id w a b u.0 unique covers) in
    omega (arith, length-remove (workspace id) e b there)

module _ (claims : LifecycleClaims) (m : WorkspaceManager) (v : IsSound claims m)
    (healthy : m.capacity.faulted ≡ false) where
  registry-Covered : Covered m.instances m.capacity.workspaces
  registry-Covered id w found = owned (lookup (workspace id) m.capacity.workspaces) (
      subst (λ o. Agrees id o (lookup (workspace id) m.capacity.workspaces)) found
        (v.agree healthy id))
    where
      owned :
          (o : Option AccountedWorkspace)
          → Agrees id (some w) o
          → (e : AccountedWorkspace) × (o ≡ some e)
      owned none a = elim a [ ]
      owned (some e) a = (e, refl)

  registry_within : length m.instances ≤ m.capacity.configured_workspace_ceiling
  registry_within =
      let inv = v.inv in
      let within = inv.within in
      omega (
        arith,
        length-Covered m.instances m.capacity.workspaces v.unique inv.unique_workspaces
            registry-Covered,
      )

-- After calls in any order from a sound manager, each answered by the host in any way: if the ledger
-- is not faulted, the registry holds at most as many workspaces as the ceiling that the ledger is
-- configured with.
pub registry-run :
    (claims : LifecycleClaims) (m : WorkspaceManager) (cs : List Call)
    → IsSound claims m
    → (run m cs).capacity.faulted ≡ false
    → length (run m cs).instances ≤ (run m cs).capacity.configured_workspace_ceiling
registry-run claims m cs v healthy =
    registry_within claims (run m cs) (run-IsSound claims m cs v) healthy
