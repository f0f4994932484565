-- ===== src/Manager/Creating.antt =====
-- `create_inner` of crates/ne-supervisor/src/workspace.rs: whatever the host answers, it leaves the
-- registry and the ledger in agreement.
use ne_enclave.Common.{
  ℕ, Bool, true, false, String, string_eq, Option, none, some, List, ◌∷◌, Result, ok, err, inl, inr,
  Bool-cases, ◌>>◌, if◌then◌else◌,
}
use ne_enclave.Protocol.Supervisor.{workspace_state_eq}
use ne_enclave.Capacity.State.{entry_eq, reserved}
use ne_enclave.Capacity.Guards.{Guard, release_entry}
use ne_enclave.Lifecycle.Claims.{LifecycleClaims}
use ne_enclave.Pool.State.{Instance}
use ne_enclave.Audit.Event.{command_failed}
use ne_enclave.Network.Slots.{Slots}
use ne_enclave.Common.{pure, raise}
use ne_enclave.Common.{bind_rule}
use ne_enclave.Manager.State.{
  WorkspaceManager, SupervisorErrorKind, audit_emit, drop_guard, teardown_network, claim_boot,
  with_lease, reserve_workspace_capacity, PendingOwner, register_pending_firecracker,
  invalid_request, invalid_image_digest,
}
use ne_enclave.Manager.Steps.{Reserves}
use ne_enclave.Manager.Soundness.{IsSound, IsBooting}
use ne_enclave.Manager.Keeping.{
  Sound, Keeps, Booting, either_state, others-IsSound, others-IsBooting, guard_dropped,
}
use ne_enclave.Manager.Registration.{register_reserved-Sound, claimed-Keeps}
use ne_enclave.Common.{nat_eq}
use ne_enclave.Audit.Event.{workspace_created}
use ne_enclave.Network.Policy.{setup, NetworkError}
use ne_enclave.Manager.Requests.{
  CreateWorkspaceRequest, NetworkConfig, ImageError, image_error_kind, check_request, both_empty,
  is_confidential, exposed_ports_from_request,
}
use ne_enclave.Ingress.Registry.{PortRoute}
use ne_enclave.Manager.Create.{
  LaunchError, launch_error_kind, CreateAnswers, launched_instance, provisioned, provision_network,
  register_routes, after_launch, launch_workspace, or_drop, cold_boot, create_claimed, create_inner,
}
use ne_enclave.Manager.Checkout.{create_from_pool}
use ne_enclave.Manager.Booting.{IsFree, reserve-IsBooting}
use ne_enclave.Manager.PoolHits.{create_from_pool-Sound}

-- What the network setup leaves: the reservation, or, where it fails, none.
abbrev Networked :
    LifecycleClaims
    → String
    → Guard
    → Result SupervisorErrorKind (Option ℕ) × WorkspaceManager
    → Type 0
Networked claims id guard (ok slot, m) = IsBooting claims id guard reserved m
Networked claims id guard (err kind, m) = IsSound claims m

module _ (claims : LifecycleClaims) (answers : CreateAnswers) (req : CreateWorkspaceRequest)
    (guard : Guard) where
  provisioned-Booting :
      (m : WorkspaceManager) (x : Result NetworkError ℕ × Slots)
      → IsBooting claims req.workspace_id guard reserved m
      → Booting claims req.workspace_id guard reserved (provisioned req.workspace_id m x)
  provisioned-Booting m (ok slot, slots) v = others-IsBooting claims _ _ _ _ v
  provisioned-Booting m (err e, slots) v = others-IsBooting claims _ _ _ _ v

  provision-Booting :
      (network : Option NetworkConfig) (m : WorkspaceManager)
      → IsBooting claims req.workspace_id guard reserved m
      → Booting claims req.workspace_id guard reserved
          (provision_network answers.commands_succeed req.workspace_id network m)
  unfolding provision_network
  provision-Booting none m v = v
  provision-Booting (some network) m v = where_networking m.networking
    where
      where_networking :
          (networking : Bool)
          → Booting claims req.workspace_id guard reserved (
              if networking
              then provisioned req.workspace_id m
                  (setup answers.commands_succeed network.policy m.slots)
              else (ok none, m))
      where_networking true =
          provisioned-Booting m (setup answers.commands_succeed network.policy m.slots) v
      where_networking false = v

  dropped-Networked :
      (x : Result SupervisorErrorKind (Option ℕ) × WorkspaceManager)
      → Booting claims req.workspace_id guard reserved x
      → Networked claims req.workspace_id guard (or_drop guard x)
  dropped-Networked (ok slot, m) v = v
  dropped-Networked (err kind, m) v = guard_dropped claims v

  images-Booting :
      (m : WorkspaceManager)
      → IsBooting claims req.workspace_id guard reserved m
      → (images : Option ImageError)
      → Booting {A = Option ℕ} claims req.workspace_id guard reserved (elim images [
        | some e ↦ (err (image_error_kind e), m)
        | none ↦ provision_network answers.commands_succeed req.workspace_id req.network m
      ])
  images-Booting m v none = provision-Booting req.network m v
  images-Booting m v (some e) = v

  -- A launch that fails.
  failed_launch :
      (slot : Option ℕ) (kind : SupervisorErrorKind) (m : WorkspaceManager)
      → IsBooting claims req.workspace_id guard reserved m
      → Sound {A = Instance} claims (
          (teardown_network slot
              >> audit_emit command_failed (some req.workspace_id)
              >> drop_guard guard
              >> raise kind)
            m)
  failed_launch none kind m v = guard_dropped claims (others-IsBooting claims _ _ _ _ v)
  failed_launch (some slot) kind m v =
      either_state
        (λ t. IsSound claims (record t {
          capacity = release_entry guard t.capacity;
          events =
              record { event_type = command_failed; workspace_id = some req.workspace_id }
              ∷ t.events;
        }))
        m.networking _ _ (guard_dropped claims (others-IsBooting claims _ _ _ _ v))
        (guard_dropped claims (others-IsBooting claims _ _ _ _ v))

  routes-Keeps :
      (slot : Option ℕ) (ports : List PortRoute)
      → Keeps claims (register_routes req.workspace_id slot ports)
  routes-Keeps none ports m v = v
  routes-Keeps (some slot) ports m v = others-IsSound claims _ _ _ _ v

  launched-Sound :
      (slot : Option ℕ) (m : WorkspaceManager)
      → IsBooting claims req.workspace_id guard reserved m
      → (x : Result LaunchError String) → Sound claims (after_launch answers req guard slot x m)
  unfolding after_launch
  launched-Sound slot m v (err e) = failed_launch slot (launch_error_kind e) m v
  launched-Sound slot m v (ok boot_id) =
      let instance = launched_instance req slot boot_id in
      let register =
        audit_emit workspace_created (some req.workspace_id)
        >> register_pending_firecracker answers.exit_confirmed req.workspace_id instance
            (PendingOwner.reserved guard) in
      let routes = register_routes req.workspace_id slot (exposed_ports_from_request req.network) in
      bind_rule (Sound claims) (Sound claims) (λ _. pure instance) (λ a t u. u) (λ e t u. u)
        (register >> routes) m
        (bind_rule (Sound claims) (Sound claims) (λ _. routes)
          (λ a t u. routes-Keeps slot (exposed_ports_from_request req.network) t u) (λ e t u. u)
          register m
          (register_reserved-Sound claims req.workspace_id answers.exit_confirmed instance guard _
            (others-IsBooting claims _ _ _ _ v)))

module _ (claims : LifecycleClaims) (answers : CreateAnswers) (req : CreateWorkspaceRequest) where
  cold_boot-Sound :
      (m : WorkspaceManager)
      → IsFree claims req.workspace_id m
      → Sound claims (cold_boot answers req m)
  unfolding cold_boot
  cold_boot-Sound m free =
      bind_rule (Sound claims) (Reserves claims req.workspace_id) _
        (λ guard t u.
          bind_rule (Sound claims) (Networked claims req.workspace_id guard)
            (launch_workspace answers req guard)
            (λ slot s w. launched-Sound claims answers req guard slot s w answers.launch)
            (λ e s w. w)
            (λ s. or_drop guard (elim answers.images [
              | some e ↦ (err (image_error_kind e), s)
              | none ↦ provision_network answers.commands_succeed req.workspace_id req.network s
            ]))
            t
            (dropped-Networked claims answers req guard _
              (images-Booting claims answers req guard t u answers.images)))
        (λ e t u. u) (reserve_workspace_capacity req.workspace_id req.vcpu_count req.mem_size_mib) m
        (reserve-IsBooting claims req.workspace_id req.vcpu_count req.mem_size_mib m free)

  create_claimed-Sound :
      (m : WorkspaceManager)
      → IsFree claims req.workspace_id m
      → Sound claims (create_claimed answers req m)
  create_claimed-Sound m free = elim (Bool-cases (is_confidential m.execution_profile)) [
    | inl confidential ↦ rw (create_claimed, confidential) free.sound
    | inr standard ↦ rw (create_claimed, standard) (tiered req.tier)
  ]
    where
      cold :
          (empty idle : Bool)
          → Sound claims (
              if empty
              then (err invalid_image_digest, m)
              else if idle
              then (err invalid_request, m)
              else cold_boot answers req m)
      cold true idle = free.sound
      cold false true = free.sound
      cold false false = cold_boot-Sound m free

      tiered :
          (tier : Option String)
          → Sound {A = Instance} claims (elim tier [
            | some tier ↦ create_from_pool answers.pool_answers answers.restore_answers tier req m
            | none ↦
                if both_empty req
                then (err invalid_image_digest, m)
                else if nat_eq req.vcpu_count 0
                then (err invalid_request, m)
                else cold_boot answers req m
          ])
      tiered (some tier) =
          create_from_pool-Sound claims answers.pool_answers answers.restore_answers tier req m free
      tiered none = cold (both_empty req) (nat_eq req.vcpu_count 0)

module _ (claims : LifecycleClaims) (answers : CreateAnswers) (req : CreateWorkspaceRequest) where
  pub create_inner-Keeps : Keeps claims (create_inner answers req)
  unfolding create_inner
  create_inner-Keeps m v = checked (check_request m.execution_profile m.max_workspace_mem_mib req)
    where
      checked :
          (o : Option SupervisorErrorKind)
          → Sound {A = Instance} claims (elim o [
            | some kind ↦ (err kind, m)
            | none ↦
                (claim_boot req.workspace_id
                    >> with_lease req.workspace_id (create_claimed answers req))
                  m
          ])
      checked (some kind) = v
      checked none =
          claimed-Keeps req.workspace_id (create_claimed answers req)
            (λ ids t none_there u.
              create_claimed-Sound ids answers req t
                (record { sound = u; none_there = none_there }))
            claims m v
