-- ===== src/Manager/PoolHits.antt =====
-- `create_from_pool` of crates/ne-supervisor/src/workspace.rs: a hit and a miss leave the registry and
-- the ledger in agreement.
use ne_enclave.Common.{
  ◌≡◌, sym, subst, Bool, true, false, not, String, string_eq, Option, none, some, List, [], ◌∷◌,
  Result, ok, err, inl, inr, Bool-cases, ◌==◌, ◌>>=◌, ◌>>◌, if◌then◌else◌,
}
use ne_enclave.Map.{contains_key}
use ne_enclave.Protocol.Supervisor.{running, workspace_state_eq}
use ne_enclave.Capacity.State.{entry_eq, registered}
use ne_enclave.Capacity.Guards.{Guard, Handed, adopt_in_place}
use ne_enclave.Lifecycle.Claims.{LifecycleClaims}
use ne_enclave.Pool.State.{WarmPool, PoolMember, Instance}
use ne_enclave.Common.{continue, raise}
use ne_enclave.Common.{bind_rule}
use ne_enclave.Manager.State.{
  WorkspaceManager, SupervisorErrorKind, AuditEntry, drop_guard, fail_closed, PendingOwner,
  register_pending_firecracker, workspace_already_exists, internal, tier_not_found, invalid_request,
}
use ne_enclave.Manager.Dropped.{pool_guard_dropped-IsSound}
use ne_enclave.Manager.Soundness.{
  IsPoolGuard, MembersGuarded, PoolGuards, IsSound, IsBooting, faulted-IsSound,
}
use ne_enclave.Manager.Keeping.{Sound, others-IsSound}
use ne_enclave.Manager.Registration.{register_registered-Sound}
use ne_enclave.Pool.State.{teardown_member}
use ne_enclave.Manager.Requests.{CreateWorkspaceRequest}
use ne_enclave.Manager.Boot.{RestoreAnswers}
use ne_enclave.Manager.Booting.{IsFree}
use ne_enclave.Manager.Restoring.{pool_miss-Sound}
use ne_enclave.Manager.Adoption.{Adopts, adopt-Adopts}
use ne_enclave.Manager.Checkout.{
  PoolAnswers, set_pool_members, checkout, adopted_member, pool_hit_path, hit_or_miss, is_some,
  from_pool, create_from_pool,
}

abbrev pub IsMember : PoolMember → Type 0
IsMember member = IsPoolGuard member.capacity_guard × (member.instance.lifecycle_state ≡ running)

-- What a checkout leaves: a free id, and a member where one is taken.
abbrev pub Checked :
    LifecycleClaims
    → String
    → Result SupervisorErrorKind (Option PoolMember) × WorkspaceManager
    → Type 0
Checked claims id (ok (some member), m) = IsMember member × IsFree claims id m
Checked claims id (ok none, m) = IsFree claims id m
Checked claims id (err kind, m) = IsSound claims m

module _ (claims : LifecycleClaims) (id : String) where
  with_members :
      (members : List PoolMember) (m : WorkspaceManager)
      → PoolGuards members
      → IsFree claims id m
      → IsFree claims id (set_pool_members members m)
  with_members members m guards free = either_pool m.pool
    where
      either_pool :
          (o : Option WarmPool)
          → IsFree claims id (elim o [
            | none ↦ m
            | some warm ↦ record m { pool = some (record warm { members = members }) }
          ])
      either_pool none = free
      either_pool (some warm) = record {
        sound = record {
          claims_kept = free.sound.claims_kept;
          inv = free.sound.inv;
          unique = free.sound.unique;
          guarded = guards;
          agree = free.sound.agree;
        };
        none_there = free.none_there;
      }

  evicted-IsFree :
      (exits : Bool) (member : PoolMember) (events : List AuditEntry) (m : WorkspaceManager)
      → IsMember member
      → IsFree claims id m
      → IsFree claims id
          (record m { events = events; capacity = teardown_member exits member m.capacity })
  unfolding teardown_member
  evicted-IsFree true member events m is_member free = record {
    sound =
        others-IsSound claims m.slots m.ingress m.attestation_nonces events
          (pool_guard_dropped-IsSound claims m free.sound member.capacity_guard is_member.0);
    none_there = free.none_there;
  }
  evicted-IsFree false member events m is_member free = record {
    sound =
        others-IsSound claims m.slots m.ingress m.attestation_nonces events
          (faulted-IsSound claims free.sound);
    none_there = free.none_there;
  }

  pub checkout-Checked :
      (answers : PoolAnswers) (members : List PoolMember) (m : WorkspaceManager)
      → PoolGuards members
      → IsFree claims id m
      → Checked claims id (checkout answers id members m)
  unfolding checkout
  checkout-Checked answers [] m guards free = with_members [] m guards free
  checkout-Checked answers (member ∷ members) m guards free =
      elim (Bool-cases (answers.alive member.instance)) [
        | inl alive ↦ rw (checkout, alive) (guards.0, with_members members m guards.1 free)
        | inr dead ↦
            rw (checkout, dead)
              (checkout-Checked answers members _ guards.1
                (evicted-IsFree (answers.exits member.instance) member _ m guards.0 free))
      ]

  -- A hit.
  abbrev Hits : Result SupervisorErrorKind Guard × WorkspaceManager → Type 0
  Hits (ok guard, m) = IsBooting claims id guard (registered running) m
  Hits (err kind, m) = IsSound claims m

  refused-Hits :
      (exits : Bool) (old : Guard) (m : WorkspaceManager)
      → IsPoolGuard old
      → IsSound claims m
      → Hits (((if exits then drop_guard old else fail_closed) >> raise internal) m)
  refused-Hits true old m g v = pool_guard_dropped-IsSound claims m v old g
  refused-Hits false old m g v = faulted-IsSound claims v

  adopted-Hits :
      (answers : PoolAnswers) (instance : Instance) (m : WorkspaceManager) (x : Handed)
      → Adopts claims id running m x
      → Hits (adopted_member answers instance m x)
  adopted-Hits answers instance m (ok guard, old, s) v = v
  adopted-Hits answers instance m (err e, old, s) v =
      refused-Hits (answers.exits instance) old (record m { capacity = s }) v.0 v.1

  pool_hit-Sound :
      (answers : PoolAnswers) (member : PoolMember) (m : WorkspaceManager)
      → IsMember member
      → IsFree claims id m
      → Sound claims (pool_hit_path answers id member m)
  unfolding pool_hit_path
  pool_hit-Sound answers member m is_member free =
      bind_rule (Sound claims) Hits _
        (λ guard t u.
          bind_rule (Sound claims) (Sound claims) _ (λ a s w. others-IsSound claims _ _ _ _ w)
            (λ e s w. w)
            (register_pending_firecracker (answers.exits member.instance) id member.instance
              (PendingOwner.registered guard))
            t
            (register_registered-Sound claims id (answers.exits member.instance) member.instance
              guard t
              (subst (λ state. IsBooting claims id guard (registered state) t) (sym is_member.1)
                u)))
        (λ e t u. u)
        (λ t.
          adopted_member answers member.instance t
            (adopt_in_place member.capacity_guard id running t.capacity))
        m
        (adopted-Hits answers member.instance m _ (
          adopt-Adopts claims m id free.none_there free.sound running member.capacity_guard
            is_member.0))

  hit_or_miss-Sound :
      (pool_answers : PoolAnswers) (answers : RestoreAnswers) (base_snapshot_id : String)
      (x : Result SupervisorErrorKind (Option PoolMember) × WorkspaceManager)
      → Checked claims id x
      → Sound claims (continue x.0 (hit_or_miss pool_answers answers base_snapshot_id id) x.1)
  hit_or_miss-Sound pool_answers answers base_snapshot_id (ok none, m) free =
      pool_miss-Sound claims id answers base_snapshot_id m free
  hit_or_miss-Sound pool_answers answers base_snapshot_id (ok (some member), m) v =
      pool_hit-Sound pool_answers member m v.0 v.1
  hit_or_miss-Sound pool_answers answers base_snapshot_id (err kind, m) v = v

module _ (claims : LifecycleClaims) (pool_answers : PoolAnswers) (answers : RestoreAnswers)
    (tier : String) (req : CreateWorkspaceRequest) (m : WorkspaceManager)
    (free : IsFree claims req.workspace_id m) where
  from_pool-Sound :
      (warm : WarmPool)
      → PoolGuards warm.members
      → Sound claims (from_pool pool_answers answers tier req warm m)
  from_pool-Sound warm guards =
      either_result (not (tier == warm.cfg.tier_name)) (is_some req.network)
        (contains_key req.workspace_id m.instances)
    where
      taken : Sound claims (
          (checkout pool_answers req.workspace_id warm.members
              >>= hit_or_miss pool_answers answers warm.cfg.base_snapshot_id req.workspace_id)
            m)
      taken =
          hit_or_miss-Sound claims req.workspace_id pool_answers answers warm.cfg.base_snapshot_id _
            (checkout-Checked claims req.workspace_id pool_answers warm.members m guards free)

      either_result :
          (wrong_tier networked exists : Bool)
          → Sound claims (
              if wrong_tier
              then (err tier_not_found, m)
              else if networked
              then (err invalid_request, m)
              else if exists
              then (err workspace_already_exists, m)
              else (checkout pool_answers req.workspace_id warm.members
                    >>= hit_or_miss pool_answers answers warm.cfg.base_snapshot_id req.workspace_id)
                  m)
      either_result true networked exists = free.sound
      either_result false true exists = free.sound
      either_result false false true = free.sound
      either_result false false false = taken

  pub create_from_pool-Sound : Sound claims (create_from_pool pool_answers answers tier req m)
  unfolding create_from_pool
  create_from_pool-Sound = of_pool m.pool free.sound.guarded
    where
      of_pool :
          (o : Option WarmPool)
          → MembersGuarded o
          → Sound {A = Instance} claims (elim o [
            | none ↦ (err tier_not_found, m)
            | some warm ↦ from_pool pool_answers answers tier req warm m
          ])
      of_pool none guards = free.sound
      of_pool (some warm) guards = from_pool-Sound warm guards
