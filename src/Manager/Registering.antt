-- ===== src/Manager/Registering.antt =====
-- `create_inner`, `restore_inner` and `fork_inner` of crates/ne-supervisor/src/workspace.rs: what they do
-- to the registry.
use ne_enclave.Common.{
  ◌≡◌, refl, ◌∙◌, Bool, true, false, String, string_eq, arith, Option, none, some, List, [], ◌∷◌,
  Result, ok, err, inl, inr, Bool-cases, ◌>>=◌, ◌>>◌, if◌then◌else◌,
}
use ne_enclave.Protocol.Supervisor.{running, workspace_state_eq}
use ne_enclave.Capacity.State.{entry_eq}
use ne_enclave.Capacity.Guards.{Guard, Handed, adopt_in_place}
use ne_enclave.Pool.State.{WarmPool, PoolMember, Instance}
use ne_enclave.Audit.Event.{EventType}
use ne_enclave.Common.{raise}
use ne_enclave.Common.{bind_rule}
use ne_enclave.Lifecycle.Claims.{claim}
use ne_enclave.Manager.State.{
  WorkspaceManager, SupervisorErrorKind, Manages, audit_emit, drop_guard, fail_closed, claim_boot,
  release_lease, with_lease, PendingOwner, internal,
}
use ne_enclave.Common.{continue}
use ne_enclave.Audit.Event.{workspace_created, pool_miss}
use ne_enclave.Manager.Boot.{
  SnapshotDimensions, prepare_snapshot_restore, RestoreAnswers, boot_prepared_ready_reset,
  boot_with_reserved_capacity, audit_failure,
}
use ne_enclave.Manager.Checkout.{
  PoolAnswers, set_pool_members, checkout, adopted_member, pool_hit_path, pool_miss_path,
  hit_or_miss,
}
use ne_enclave.Manager.Restoring.{finish}
use ne_enclave.Manager.Registry.{
  Instances, Same, LeavesSame, audit_failure-Same, prepare-Same, ready_reset-Same, boot_with-Same,
  Registers, Creates, register-Registers,
}

module _ (instances : Instances) (id : String) where
  -- The claim of the id, and the end of its lease.
  claim_boot-Same : LeavesSame instances (claim_boot id)
  unfolding claim_boot claim
  claim_boot-Same m e = ground arith

  released-Creates :
      (x : Result SupervisorErrorKind Instance × WorkspaceManager)
      → Creates id instances x
      → Creates id instances (release_lease id x)
  released-Creates (ok instance, m) c = c
  released-Creates (err k, m) e = e

  pub claimed-Creates :
      (body : Manages Instance)
      → ((m : WorkspaceManager) → m.instances ≡ instances → Creates id instances (body m))
      → (m : WorkspaceManager) → m.instances ≡ instances
      → Creates id instances ((claim_boot id >> with_lease id body) m)
  claimed-Creates body creates m e =
      bind_rule (Creates id instances) (Same instances) (λ _. with_lease id body)
        (λ a t u. released-Creates (body t) (creates t u)) (λ k t u. u) (claim_boot id) m
        (claim_boot-Same m e)

  -- The registration of an instance, and what follows it.
  pub then-Creates :
      {A : Type 0} (instance : Instance) (next : A → Manages Instance)
      → ((a : A) (t : WorkspaceManager)
          → ((next a t).0 ≡ ok instance) × ((next a t).1.instances ≡ t.instances))
      → (x : Result SupervisorErrorKind A × WorkspaceManager) → Registers id instance instances x
      → Creates id instances (continue x.0 next x.1)
  then-Creates instance next ends (ok a, t) c =
      let (answers, same) = ends a t in rw answers (c.0, same ∙ c.1)
  then-Creates instance next ends (err k, t) e = e

  finish-Creates :
      (exit_confirmed : Bool) (event : EventType) (booted : Instance × Guard) (m : WorkspaceManager)
      → m.instances ≡ instances
      → Creates id instances (finish exit_confirmed event id booted m)
  finish-Creates exit_confirmed event booted m e =
      then-Creates booted.0 _ (λ a t. (refl, refl)) _
        (register-Registers instances id exit_confirmed booted.0 (PendingOwner.reserved booted.1) m
          e)

  pub prepared-Creates :
      (boot : SnapshotDimensions → Manages (Instance × Guard))
      → ((manifest : SnapshotDimensions) → LeavesSame instances (boot manifest))
      → (answers : RestoreAnswers) (event : EventType) (snapshot_id : String) (m : WorkspaceManager)
      → m.instances ≡ instances
      → Creates id instances (
          (audit_failure id (prepare_snapshot_restore answers.verified snapshot_id id)
              >>= λ manifest. boot manifest >>= finish answers.exit_confirmed event id)
            m)
  prepared-Creates boot boots answers event snapshot_id m e =
      bind_rule (Creates id instances) (Same instances) _
        (λ manifest t u.
          bind_rule (Creates id instances) (Same instances) (finish answers.exit_confirmed event id)
            (λ booted s w. finish-Creates answers.exit_confirmed event booted s w) (λ k s w. w)
            (boot manifest) t (boots manifest t u))
        (λ k t u. u) (audit_failure id (prepare_snapshot_restore answers.verified snapshot_id id)) m
        (audit_failure-Same instances id (prepare_snapshot_restore answers.verified snapshot_id id)
          (prepare-Same instances answers.verified snapshot_id id) m e)

  pub forked-Same :
      (answers : RestoreAnswers) (manifest : SnapshotDimensions)
      → LeavesSame instances (
          audit_failure id (
            boot_with_reserved_capacity id manifest
              (boot_prepared_ready_reset answers id manifest)))
  forked-Same answers manifest =
      audit_failure-Same instances id
        (boot_with_reserved_capacity id manifest (boot_prepared_ready_reset answers id manifest))
        (boot_with-Same instances id manifest (boot_prepared_ready_reset answers id manifest)
          (ready_reset-Same instances answers id manifest))

  pool_miss-Creates :
      (answers : RestoreAnswers) (base_snapshot_id : String) (m : WorkspaceManager)
      → m.instances ≡ instances
      → Creates id instances (pool_miss_path answers base_snapshot_id id m)
  unfolding pool_miss_path
  pool_miss-Creates answers base_snapshot_id m e =
      prepared-Creates
        (λ manifest.
          audit_failure id (
            boot_with_reserved_capacity id manifest
              (boot_prepared_ready_reset answers id manifest)))
        (forked-Same answers) answers workspace_created base_snapshot_id
        ((audit_emit pool_miss (some id) m).1) e

  -- The checkout, and a hit.
  members-Same :
      (members : List PoolMember) (m : WorkspaceManager)
      → m.instances ≡ instances
      → (set_pool_members members m).instances ≡ instances
  members-Same members m e = either_pool m.pool
    where
      either_pool :
          (o : Option WarmPool)
          → (elim o as (λ _. WorkspaceManager) [
            | none ↦ m
            | some warm ↦ record m { pool = some (record warm { members = members }) }
          ]).instances
            ≡ instances
      either_pool none = e
      either_pool (some warm) = e

  pub checkout-Same :
      (answers : PoolAnswers) (members : List PoolMember)
      → LeavesSame instances (checkout answers id members)
  unfolding checkout
  checkout-Same answers [] m e = members-Same [] m e
  checkout-Same answers (member ∷ members) m e = elim (Bool-cases (answers.alive member.instance)) [
    | inl alive ↦ rw (checkout, alive) (members-Same members m e)
    | inr dead ↦ rw (checkout, dead) (checkout-Same answers members _ e)
  ]

  adopted-Same :
      (answers : PoolAnswers) (instance : Instance) (m : WorkspaceManager) (x : Handed)
      → m.instances ≡ instances
      → Same instances (adopted_member answers instance m x)
  adopted-Same answers instance m (ok guard, old, s) e = e
  adopted-Same answers instance m (err k, old, s) e = refused (answers.exits instance)
    where
      refused :
          (exits : Bool)
          → Same instances {A = Guard} (
              ((if exits then drop_guard old else fail_closed) >> raise internal)
                (record m { capacity = s }))
      refused true = e
      refused false = e

  hit-Creates :
      (answers : PoolAnswers) (member : PoolMember) (m : WorkspaceManager)
      → m.instances ≡ instances
      → Creates id instances (pool_hit_path answers id member m)
  unfolding pool_hit_path
  hit-Creates answers member m e =
      bind_rule (Creates id instances) (Same instances) _
        (λ guard t u.
          then-Creates member.instance _ (λ a s. (refl, refl)) _
            (register-Registers instances id (answers.exits member.instance) member.instance
              (PendingOwner.registered guard) t u))
        (λ k t u. u)
        (λ t.
          adopted_member answers member.instance t
            (adopt_in_place member.capacity_guard id running t.capacity))
        m (adopted-Same answers member.instance m _ e)

  pub hit_or_miss-Creates :
      (pool_answers : PoolAnswers) (answers : RestoreAnswers) (base_snapshot_id : String)
      (o : Option PoolMember) (m : WorkspaceManager)
      → m.instances ≡ instances
      → Creates id instances (hit_or_miss pool_answers answers base_snapshot_id id o m)
  hit_or_miss-Creates pool_answers answers base_snapshot_id none m e =
      pool_miss-Creates answers base_snapshot_id m e
  hit_or_miss-Creates pool_answers answers base_snapshot_id (some member) m e =
      hit-Creates pool_answers member m e
