-- ===== src/Manager/SnapshotInner.antt =====
-- crates/ne-supervisor/src/workspace.rs: `snapshot_inner` as a whole, and `pause_inner` and
-- `resume_inner`. The registry is unlocked while the memory is dumped and while the artifact is
-- published: what other tasks do then is given, as a function on the manager.
use ne_enclave.Common.{
  Bool, true, false, not, ◌&&◌, String, string_eq, Option, none, some, Result, ok, err, pure, raise,
  ◌>>=◌, ◌>>◌, if◌then◌else◌,
}
use ne_enclave.Protocol.Supervisor.{running, paused}
use ne_enclave.Audit.Event.{snapshot_created, snapshot_failed as snapshot_failed_event}
use ne_enclave.Lifecycle.Claims.{claim}
use ne_enclave.Manager.Boot.{RestoreAnswers}
use ne_enclave.Manager.State.{
  WorkspaceManager, SupervisorErrorKind, Manages, audit_emit, with_lease, workspace_not_found,
  internal, snapshot_failed, unsupported,
}
use ne_enclave.Manager.Snapshot.{
  Captured, mark, SnapshotFinalize, set, resume_in_place, finalize_snapshot_state, live_hot_swap,
}

-- What the host answers: whether the VM pauses, whether the dump is taken, whether the VM resumes,
-- whether the directory, the copies, the key and the manifest are there, and the answers of the swap.
pub record SnapshotAnswers : Type 0 where
  pub pauses : Bool
  pub dumps : Bool
  pub resumes : Bool
  pub dir_created : Bool
  pub copied : Bool
  pub signing_key : Bool
  pub manifest_written : Bool
  pub swap_answers : RestoreAnswers
  pub old_exits : Bool
  pub snapshot_id : String
  pub provisional_id : String
  pub during_dump : WorkspaceManager → WorkspaceManager
  pub during_publication : WorkspaceManager → WorkspaceManager

pub record SnapshotRequest : Type 0 where
  pub workspace_id : String
  pub live : Bool

-- An error, with its event.
abbrev pub fail_snapshot : String → SupervisorErrorKind → Manages (Unit {0})
fail_snapshot workspace_id kind = audit_emit snapshot_failed_event (some workspace_id) >> raise kind

-- What other tasks do in an unlocked window.
abbrev pub window : (WorkspaceManager → WorkspaceManager) → Manages (Unit {0})
window during m = (ok tt, during m)

abbrev pub finalize : Bool → String → String → SnapshotFinalize → Manages Bool
finalize resumes workspace_id boot_id action m =
    let (finalized, m') = finalize_snapshot_state resumes workspace_id boot_id action m in
    (ok finalized, m')

-- The hot swap of a live snapshot, and the event of its failure.
abbrev pub swap_reported :
    String
    → Result SupervisorErrorKind (Unit {0}) × WorkspaceManager
    → Result SupervisorErrorKind (Unit {0}) × WorkspaceManager
swap_reported workspace_id (ok _, m) = (ok tt, m)
swap_reported workspace_id (err kind, m) = fail_snapshot workspace_id kind m

unfoldable pub swap_live : SnapshotAnswers → String → String → Bool → Manages (Unit {0})
unfolding live_hot_swap
swap_live answers workspace_id boot_id finalized m = swap_reported workspace_id (
    if finalized
    then live_hot_swap answers.swap_answers answers.old_exits workspace_id boot_id
        answers.snapshot_id answers.provisional_id m
    else (err workspace_not_found, m))

-- Steps 5 to 8: the artifact is published, and the source of a live snapshot replaced.
abbrev pub artifact_error : SnapshotAnswers → Option SupervisorErrorKind
artifact_error answers =
    if not answers.dir_created
    then some internal
    else if not answers.copied
    then some internal
    else if not answers.signing_key
    then some internal
    else if not answers.manifest_written
    then some snapshot_failed
    else none

abbrev pub resume_live : SnapshotAnswers → String → String → Bool → Bool → Manages (Unit {0})
resume_live answers workspace_id boot_id finalized false = pure tt
resume_live answers workspace_id boot_id finalized true =
    swap_live answers workspace_id boot_id finalized

unfoldable pub published :
    SnapshotAnswers
    → SnapshotRequest
    → Captured
    → Bool
    → Option SupervisorErrorKind
    → Manages (Unit {0})
unfolding swap_live
published answers req captured finalized (some kind) = fail_snapshot req.workspace_id kind
published answers req captured finalized none =
    resume_live answers req.workspace_id captured.boot_id finalized req.live
    >> audit_emit snapshot_created (some req.workspace_id)

abbrev pub publish : SnapshotAnswers → SnapshotRequest → Captured → Bool → Manages (Unit {0})
publish answers req captured finalized =
    published answers req captured finalized (artifact_error answers)

-- Steps 2 to 4: the pause and the dump, and the state that they leave.
abbrev pub after_dump_error : Captured → SnapshotFinalize
after_dump_error captured = if captured.was_running then resume_in_place else set paused

abbrev pub after_dump : SnapshotRequest → Captured → SnapshotFinalize
after_dump req captured =
    if captured.was_running && not req.live then resume_in_place else set paused

-- By whether the pause fails, and whether the dump is taken.
unfoldable pub dumped :
    SnapshotAnswers → SnapshotRequest → Captured → Bool → Bool → Manages (Unit {0})
unfolding finalize_snapshot_state published
dumped answers req captured true dumps =
    finalize answers.resumes req.workspace_id captured.boot_id (set running)
    >> fail_snapshot req.workspace_id snapshot_failed
dumped answers req captured false false =
    finalize answers.resumes req.workspace_id captured.boot_id (after_dump_error captured)
    >> fail_snapshot req.workspace_id snapshot_failed
dumped answers req captured false true = do
  finalized ← finalize answers.resumes req.workspace_id captured.boot_id (after_dump req captured)
  window answers.during_publication
  publish answers req captured finalized

abbrev pub dump : SnapshotAnswers → SnapshotRequest → Captured → Manages (Unit {0})
dump answers req captured =
    dumped answers req captured (captured.was_running && not answers.pauses) answers.dumps

-- `snapshot_inner` behind its lease, and as a whole.
unfoldable pub snapshot_claimed : SnapshotAnswers → SnapshotRequest → Manages (Unit {0})
unfolding mark dumped
snapshot_claimed answers req = do
  captured ← mark req.live req.workspace_id
  window answers.during_dump
  dump answers req captured

unfoldable pub snapshot_inner : SnapshotAnswers → SnapshotRequest → Manages (Unit {0})
unfolding claim snapshot_claimed
snapshot_inner answers req m =
    let (lease, ids) = claim req.workspace_id m.lifecycle_claims in
    elim lease [
      | none ↦ (err snapshot_failed, m)
      | some _ ↦
          with_lease req.workspace_id (snapshot_claimed answers req)
            (record m { lifecycle_claims = ids })
    ]

-- `pause_inner` and `resume_inner`, which are deferred.
unfoldable pub pause_inner : String → Manages (Unit {0})
pause_inner workspace_id = raise unsupported

unfoldable pub resume_inner : String → Manages (Unit {0})
resume_inner workspace_id = raise unsupported
