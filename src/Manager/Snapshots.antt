-- ===== src/Manager/Snapshots.antt =====
-- `snapshot_inner` of crates/ne-supervisor/src/workspace.rs: it leaves the registry and the ledger in
-- agreement if the tasks that act while the registry is unlocked do.
use ne_enclave.Common.{
  ◌&&◌, ◌≡◌, sym, subst, Bool, true, false, not, String, string_eq, arith, Option, none, some,
  Result, ok, err, inl, inr, Option-cases, ◌>>=◌, ◌>>◌,
}
use ne_enclave.Map.{lookup, insert}
use ne_enclave.Protocol.Supervisor.{running, workspace_state_eq}
use ne_enclave.Capacity.State.{entry_eq}
use ne_enclave.Lifecycle.Claims.{LifecycleClaims}
use ne_enclave.Lifecycle.Claims.{claim}
use ne_enclave.Manager.State.{
  WorkspaceManager, SupervisorErrorKind, Manages, audit_emit, with_lease, workspace_not_found,
  snapshot_failed,
}
use ne_enclave.Manager.Soundness.{IsSound}
use ne_enclave.Manager.Keeping.{Sound, Keeps, others-IsSound, audit_emit-Keeps, bind-Keeps}
use ne_enclave.Manager.Registration.{leased, lease_ended}
use ne_enclave.Audit.Event.{snapshot_created}
use ne_enclave.Manager.Snapshot.{Captured, mark, SnapshotFinalize, set}
use ne_enclave.Manager.SnapshotInner.{
  SnapshotAnswers, SnapshotRequest, fail_snapshot, window, finalize, swap_reported, swap_live,
  publish, published, resume_live, artifact_error, dumped, after_dump, after_dump_error, dump,
  snapshot_claimed, snapshot_inner,
}
use ne_enclave.Manager.Snapshotting.{mark-Keeps, finalize-IsSound, hot_swap-Keeps}

-- Tasks that keep the agreement, whatever leases are held.
abbrev pub KeepsSound : (WorkspaceManager → WorkspaceManager) → Type 0
KeepsSound during =
    (claims : LifecycleClaims) (m : WorkspaceManager) → IsSound claims m → IsSound claims (during m)

module _ (answers : SnapshotAnswers) (dumping : KeepsSound answers.during_dump)
    (publishing : KeepsSound answers.during_publication) (req : SnapshotRequest) where
  module _ (claims : LifecycleClaims) where
    fail-Keeps : (kind : SupervisorErrorKind) → Keeps claims (fail_snapshot req.workspace_id kind)
    fail-Keeps kind m v = others-IsSound claims _ _ _ _ v

    finalize-Keeps :
        (boot_id : String) (action : SnapshotFinalize)
        → Keeps claims (finalize answers.resumes req.workspace_id boot_id action)
    finalize-Keeps boot_id action m v =
        finalize-IsSound claims req.workspace_id answers.resumes boot_id action m v

    reported-Sound :
        (x : Result SupervisorErrorKind (Unit {0}) × WorkspaceManager)
        → Sound claims x
        → Sound claims (swap_reported req.workspace_id x)
    reported-Sound (ok _, m) v = v
    reported-Sound (err kind, m) v = fail-Keeps kind m v

    swap_live-Keeps :
        (boot_id : String) (finalized : Bool)
        → Keeps claims (swap_live answers req.workspace_id boot_id finalized)
    unfolding swap_live
    swap_live-Keeps boot_id true m v = reported-Sound _ (
        hot_swap-Keeps claims req.workspace_id answers.swap_answers answers.old_exits boot_id
          answers.snapshot_id answers.provisional_id m v)
    swap_live-Keeps boot_id false m v = fail-Keeps workspace_not_found m v

    resume_live-Keeps :
        (boot_id : String) (finalized live : Bool)
        → Keeps claims (resume_live answers req.workspace_id boot_id finalized live)
    resume_live-Keeps boot_id finalized false m v = v
    resume_live-Keeps boot_id finalized true m v = swap_live-Keeps boot_id finalized m v

    published-Keeps :
        (captured : Captured) (finalized : Bool) (error : Option SupervisorErrorKind)
        → Keeps claims (published answers req captured finalized error)
    unfolding published
    published-Keeps captured finalized (some kind) m v = fail-Keeps kind m v
    published-Keeps captured finalized none m v =
        bind-Keeps claims (resume_live answers req.workspace_id captured.boot_id finalized req.live)
          (λ _. audit_emit snapshot_created (some req.workspace_id))
          (resume_live-Keeps captured.boot_id finalized req.live)
          (λ _. audit_emit-Keeps claims snapshot_created (some req.workspace_id)) m v

    -- The end of a dump, and what follows it.
    finalized-Keeps :
        (boot_id : String) (action : SnapshotFinalize) (next : Bool → Manages (Unit {0}))
        → ((finalized : Bool) → Keeps claims (next finalized))
        → Keeps claims (finalize answers.resumes req.workspace_id boot_id action >>= next)
    finalized-Keeps boot_id action next keeps m v =
        bind-Keeps claims (finalize answers.resumes req.workspace_id boot_id action) next
          (finalize-Keeps boot_id action) keeps m v

    dumped-Keeps :
        (captured : Captured) (pause_fails dumps : Bool)
        → Keeps claims (dumped answers req captured pause_fails dumps)
    unfolding dumped
    dumped-Keeps captured true dumps m v =
        finalized-Keeps captured.boot_id (set running)
          (λ _. fail_snapshot req.workspace_id snapshot_failed) (λ _. fail-Keeps snapshot_failed) m
          v
    dumped-Keeps captured false false m v =
        finalized-Keeps captured.boot_id (after_dump_error captured)
          (λ _. fail_snapshot req.workspace_id snapshot_failed) (λ _. fail-Keeps snapshot_failed) m
          v
    dumped-Keeps captured false true m v =
        finalized-Keeps captured.boot_id (after_dump req captured)
          (λ finalized. window answers.during_publication >> publish answers req captured finalized)
          (λ finalized t u.
            published-Keeps captured finalized (artifact_error answers) _ (publishing claims t u))
          m v

    claimed-Sound : Keeps claims (snapshot_claimed answers req)
    unfolding snapshot_claimed
    claimed-Sound m v =
        bind-Keeps claims (mark req.live req.workspace_id)
          (λ captured. window answers.during_dump >> dump answers req captured)
          (mark-Keeps claims req.workspace_id req.live)
          (λ captured t u.
            dumped-Keeps captured (captured.was_running && not answers.pauses) answers.dumps _
              (dumping claims t u))
          m v

  held_lem :
      (m : WorkspaceManager) (held : Unit {0})
      → lookup req.workspace_id m.lifecycle_claims ≡ some held
      → snapshot_inner answers req m ≡ (err snapshot_failed, m)
  unfolding snapshot_inner claim
  held_lem m held e = ground arith

  free_lem :
      (m : WorkspaceManager)
      → lookup req.workspace_id m.lifecycle_claims ≡ none
      → snapshot_inner answers req m
        ≡ with_lease req.workspace_id
            (snapshot_claimed answers req)
            (record m { lifecycle_claims = insert req.workspace_id tt m.lifecycle_claims })
  unfolding snapshot_inner claim
  free_lem m e = ground arith

  snapshot_at :
      (m : WorkspaceManager)
      → IsSound m.lifecycle_claims m
      → Sound m.lifecycle_claims (snapshot_inner answers req m)
  snapshot_at m v = elim (Option-cases (lookup req.workspace_id m.lifecycle_claims)) [
    | inr (held, e) ↦ subst (Sound m.lifecycle_claims) (sym (held_lem m held e)) v
    | inl free ↦
        let m' = record m { lifecycle_claims = insert req.workspace_id tt m.lifecycle_claims } in
        subst (Sound m.lifecycle_claims) (sym (free_lem m free)) (
          lease_ended req.workspace_id m.lifecycle_claims free (snapshot_claimed answers req m')
            (claimed-Sound _ m' (leased _ _ v)))
  ]

  -- A snapshot of a workspace, live or not, is taken of a sound manager whose leases are `claims`, and
  -- whatever other tasks do while the registry is unlocked keeps a manager sound, whatever leases it
  -- holds. Then the manager is sound after the snapshot, with the same leases, however each of its
  -- steps ends: the pause, the dump, the resume, the publication of the artifact, and the swap of the
  -- instance.
  pub snapshot_inner-IsSound :
      (claims : LifecycleClaims) (m : WorkspaceManager)
      → IsSound claims m
      → IsSound claims (snapshot_inner answers req m).1
  snapshot_inner-IsSound claims m v =
      subst (λ c. Sound c (snapshot_inner answers req m)) v.claims_kept
        (snapshot_at m (subst (λ c. IsSound c m) (sym v.claims_kept) v))
