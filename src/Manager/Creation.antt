-- ===== src/Manager/Creation.antt =====
-- `create_inner`, `restore_inner` and `fork_inner` of crates/ne-supervisor/src/workspace.rs: on success
-- the registry has the new instance, and on an error it is as it was.
use ne_enclave.Common.{
  ◌≡◌, refl, Bool, true, false, not, String, string_eq, Option, none, some, err, ◌==◌, ◌>>=◌, ◌>>◌,
  if◌then◌else◌,
}
use ne_enclave.Map.{contains_key}
use ne_enclave.Protocol.Supervisor.{workspace_state_eq}
use ne_enclave.Capacity.State.{entry_eq}
use ne_enclave.Pool.State.{WarmPool}
use ne_enclave.Audit.Event.{workspace_restored, workspace_forked}
use ne_enclave.Common.{bind_rule}
use ne_enclave.Manager.State.{
  WorkspaceManager, SupervisorErrorKind, claim_boot, with_lease, workspace_already_exists,
  tier_not_found, invalid_request, invalid_image_digest, unsupported,
}
use ne_enclave.Common.{nat_eq}
use ne_enclave.Manager.Requests.{CreateWorkspaceRequest, check_request, both_empty, is_confidential}
use ne_enclave.Manager.Boot.{
  RestoreAnswers, boot_prepared_snapshot, boot_prepared_ready_reset, boot_with_reserved_capacity,
  audit_failure, restore_inner, fork_inner,
}
use ne_enclave.Manager.Create.{CreateAnswers, cold_boot, create_claimed, create_inner}
use ne_enclave.Manager.Checkout.{checkout, hit_or_miss, is_some, from_pool, create_from_pool}
use ne_enclave.Manager.Registry.{Instances, Same, boot_prepared-Same, boot_with-Same, Creates}
use ne_enclave.Manager.Registering.{
  claimed-Creates, prepared-Creates, forked-Same, checkout-Same, hit_or_miss-Creates,
}
use ne_enclave.Manager.ColdBoot.{cold_boot-Creates}

module _ (instances : Instances) (answers : CreateAnswers) (req : CreateWorkspaceRequest)
    (m : WorkspaceManager) (e : m.instances ≡ instances) where
  from_pool-Creates :
      (tier : String) (warm : WarmPool)
      → Creates req.workspace_id instances
          (from_pool answers.pool_answers answers.restore_answers tier req warm m)
  from_pool-Creates tier warm =
      refused (not (tier == warm.cfg.tier_name)) (is_some req.network)
        (contains_key req.workspace_id m.instances)
    where
      refused :
          (wrong_tier networked exists : Bool)
          → Creates req.workspace_id instances (
              if wrong_tier
              then (err tier_not_found, m)
              else if networked
              then (err invalid_request, m)
              else if exists
              then (err workspace_already_exists, m)
              else (checkout answers.pool_answers req.workspace_id warm.members
                    >>= hit_or_miss answers.pool_answers answers.restore_answers
                        warm.cfg.base_snapshot_id req.workspace_id)
                  m)
      refused true networked exists = e
      refused false true exists = e
      refused false false true = e
      refused false false false =
          bind_rule (Creates req.workspace_id instances) (Same instances) _
            (λ o t u.
              hit_or_miss-Creates instances req.workspace_id answers.pool_answers
                answers.restore_answers warm.cfg.base_snapshot_id o t u)
            (λ k t u. u) (checkout answers.pool_answers req.workspace_id warm.members) m
            (checkout-Same instances req.workspace_id answers.pool_answers warm.members m e)

  pooled-Creates :
      (tier : String)
      → Creates req.workspace_id instances
          (create_from_pool answers.pool_answers answers.restore_answers tier req m)
  unfolding create_from_pool
  pooled-Creates tier = of_pool m.pool
    where
      of_pool :
          (o : Option WarmPool)
          → Creates req.workspace_id instances (elim o [
            | none ↦ (err tier_not_found, m)
            | some warm ↦ from_pool answers.pool_answers answers.restore_answers tier req warm m
          ])
      of_pool none = e
      of_pool (some warm) = from_pool-Creates tier warm

module _ (instances : Instances) (answers : CreateAnswers) (req : CreateWorkspaceRequest) where
  create_claimed-Creates :
      (m : WorkspaceManager)
      → m.instances ≡ instances
      → Creates req.workspace_id instances (create_claimed answers req m)
  create_claimed-Creates m e = confidential (is_confidential m.execution_profile)
    where
      cold :
          (empty idle : Bool)
          → Creates req.workspace_id instances (
              if empty
              then (err invalid_image_digest, m)
              else if idle
              then (err invalid_request, m)
              else cold_boot answers req m)
      cold true idle = e
      cold false true = e
      cold false false = cold_boot-Creates instances answers req m e

      tiered :
          (tier : Option String)
          → Creates req.workspace_id instances (elim tier [
            | some tier ↦ create_from_pool answers.pool_answers answers.restore_answers tier req m
            | none ↦
                if both_empty req
                then (err invalid_image_digest, m)
                else if nat_eq req.vcpu_count 0
                then (err invalid_request, m)
                else cold_boot answers req m
          ])
      tiered (some tier) = pooled-Creates instances answers req m e tier
      tiered none = cold (both_empty req) (nat_eq req.vcpu_count 0)

      confidential :
          (b : Bool)
          → Creates req.workspace_id instances (
              if b then (err unsupported, m) else elim req.tier [
                | some tier ↦
                    create_from_pool answers.pool_answers answers.restore_answers tier req m
                | none ↦
                    if both_empty req
                    then (err invalid_image_digest, m)
                    else if nat_eq req.vcpu_count 0
                    then (err invalid_request, m)
                    else cold_boot answers req m
              ])
      confidential true = e
      confidential false = tiered req.tier

-- A creation, cold or from the warm pool, that succeeds with an instance leaves it in the registry
-- under the id of the request, and every other instance as it was. One that fails, at
-- whatever step and whatever the host answers to the cleanup, leaves the registry as it was.
pub create_inner_lem :
    (answers : CreateAnswers) (req : CreateWorkspaceRequest) (m : WorkspaceManager)
    → Creates req.workspace_id m.instances (create_inner answers req m)
unfolding create_inner
create_inner_lem answers req m =
    checked (check_request m.execution_profile m.max_workspace_mem_mib req)
  where
    checked :
        (o : Option SupervisorErrorKind)
        → Creates req.workspace_id m.instances (elim o [
          | some kind ↦ (err kind, m)
          | none ↦
              (claim_boot req.workspace_id
                  >> with_lease req.workspace_id (create_claimed answers req))
                m
        ])
    checked (some kind) = refl
    checked none =
        claimed-Creates m.instances req.workspace_id (create_claimed answers req)
          (λ t u. create_claimed-Creates m.instances answers req t u) m refl

-- A restore and a fork that succeed with an instance leave it in the registry under the id that they
-- were given, and every other instance as it was; one that fails leaves the registry as
-- it was.
pub restore_or_fork_lem :
    (answers : RestoreAnswers) (snapshot_id id : String) (m : WorkspaceManager)
    → Creates id m.instances (restore_inner answers snapshot_id id m)
      × Creates id m.instances (fork_inner answers snapshot_id id m)
unfolding restore_inner fork_inner
restore_or_fork_lem answers snapshot_id id m = (
  claimed-Creates m.instances id _
      (λ t u.
        prepared-Creates m.instances id
          (λ manifest.
            boot_with_reserved_capacity id manifest (boot_prepared_snapshot answers id manifest))
          (λ manifest.
            boot_with-Same m.instances id manifest (boot_prepared_snapshot answers id manifest)
              (boot_prepared-Same m.instances answers id manifest))
          answers workspace_restored snapshot_id t u)
      m refl,
  claimed-Creates m.instances id _
      (λ t u.
        prepared-Creates m.instances id
          (λ manifest. audit_failure id (
            boot_with_reserved_capacity id manifest
              (boot_prepared_ready_reset answers id manifest)))
          (forked-Same m.instances id answers) answers workspace_forked snapshot_id t u)
      m refl,
)
