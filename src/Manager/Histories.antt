-- ===== src/Manager/Histories.antt =====
-- The calls that crates/ne-supervisor/src/workspace.rs answers, in any order and whatever the host
-- answers to each, one after another.
use ne_enclave.Common.{ℕ, Bool, String, string_eq, List, [], ◌∷◌}
use ne_enclave.Protocol.Supervisor.{workspace_state_eq}
use ne_enclave.Capacity.State.{entry_eq}
use ne_enclave.Lifecycle.Claims.{LifecycleClaims}
use ne_enclave.Manager.State.{WorkspaceManager}
use ne_enclave.Manager.Soundness.{IsSound}
use ne_enclave.Ingress.Registry.{PortRoute}
use ne_enclave.Manager.Requests.{CreateWorkspaceRequest}
use ne_enclave.Manager.Boot.{RestoreAnswers, restore_inner, fork_inner}
use ne_enclave.Manager.Create.{CreateAnswers, create_inner}
use ne_enclave.Manager.Terminate.{terminate_inner}
use ne_enclave.Manager.Snapshot.{mark, SnapshotFinalize, finalize_snapshot_state, live_hot_swap}
use ne_enclave.Manager.Ports.{expose_port_inner, unexpose_port_inner}
use ne_enclave.Manager.Creating.{create_inner-Keeps}
use ne_enclave.Manager.Restoring.{restore_inner-Keeps, fork_inner-Keeps}
use ne_enclave.Manager.Ending.{terminate_inner-Keeps}
use ne_enclave.Manager.Snapshotting.{
  mark-Keeps, finalize-IsSound, hot_swap-Keeps, expose-Keeps, unexpose-Keeps,
}

pub data Call : Type 0 where
  creates : CreateAnswers → CreateWorkspaceRequest → Call
  restores forks : RestoreAnswers → String → String → Call
  terminates : Bool → String → Call
  marks : Bool → String → Call
  finalizes : Bool → String → String → SnapshotFinalize → Call
  hot_swaps : RestoreAnswers → Bool → String → String → String → String → Call
  exposes : String → PortRoute → Call
  unexposes : String → ℕ → Call

unfoldable pub step : WorkspaceManager → Call → WorkspaceManager
unfolding create_inner restore_inner fork_inner terminate_inner mark finalize_snapshot_state
    live_hot_swap expose_port_inner unexpose_port_inner
step m (creates answers req) = (create_inner answers req m).1
step m (restores answers snapshot_id id) = (restore_inner answers snapshot_id id m).1
step m (forks answers snapshot_id id) = (fork_inner answers snapshot_id id m).1
step m (terminates exit_confirmed id) = (terminate_inner exit_confirmed id m).1
step m (marks live id) = (mark live id m).1
step m (finalizes resumes id boot_id action) =
    (finalize_snapshot_state resumes id boot_id action m).1
step m (hot_swaps answers old_exits source boot_id snapshot_id provisional_id) =
    (live_hot_swap answers old_exits source boot_id snapshot_id provisional_id m).1
step m (exposes id route) = (expose_port_inner id route m).1
step m (unexposes id port) = (unexpose_port_inner id port m).1

unfoldable pub run : WorkspaceManager → List Call → WorkspaceManager
run m [] = m
run m (c ∷ cs) = run (step m c) cs

step-IsSound :
    (claims : LifecycleClaims) (m : WorkspaceManager) (c : Call)
    → IsSound claims m
    → IsSound claims (step m c)
unfolding step
step-IsSound claims m (creates answers req) v = create_inner-Keeps claims answers req m v
step-IsSound claims m (restores answers snapshot_id id) v =
    restore_inner-Keeps claims answers snapshot_id id m v
step-IsSound claims m (forks answers snapshot_id id) v =
    fork_inner-Keeps claims answers snapshot_id id m v
step-IsSound claims m (terminates exit_confirmed id) v =
    terminate_inner-Keeps claims id exit_confirmed m v
step-IsSound claims m (marks live id) v = mark-Keeps claims id live m v
step-IsSound claims m (finalizes resumes id boot_id action) v =
    finalize-IsSound claims id resumes boot_id action m v
step-IsSound claims m (hot_swaps answers old_exits source boot_id snapshot_id provisional_id) v =
    hot_swap-Keeps claims source answers old_exits boot_id snapshot_id provisional_id m v
step-IsSound claims m (exposes id route) v = expose-Keeps claims id route m v
step-IsSound claims m (unexposes id port) v = unexpose-Keeps claims id port m v

-- Calls that create, restore, fork, terminate, mark for a snapshot, finalize or swap workspaces, or
-- change their ports, come in any order, each after the one before, and the host answers each in any
-- way. From a sound manager (its leases are `claims`, its ledger keeps its invariant, its registry has
-- one instance to an id, the members of its pool run and own entries of the pool, and, while the ledger
-- is not faulted, every id has an instance exactly when the ledger has a workspace entry for it, with
-- the instance owning the entry and both in the same state) they reach a sound manager with the same
-- leases: no lease is left behind, no entry is lost or left without its instance, and no state of the
-- ledger is behind the registry's.
pub run-IsSound :
    (claims : LifecycleClaims) (m : WorkspaceManager) (cs : List Call)
    → IsSound claims m
    → IsSound claims (run m cs)
unfolding run
run-IsSound claims m [] v = v
run-IsSound claims m (c ∷ cs) v = run-IsSound claims (step m c) cs (step-IsSound claims m c v)
