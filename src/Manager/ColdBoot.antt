-- ===== src/Manager/ColdBoot.antt =====
-- The cold boot of `create_inner` in crates/ne-supervisor/src/workspace.rs: what its steps leave in
-- the registry.
use ne_enclave.Common.{
  ℕ, ◌≡◌, Bool, true, false, String, string_eq, Option, none, some, List, Result, ok, err, ◌>>◌,
  if◌then◌else◌,
}
use ne_enclave.Protocol.Supervisor.{workspace_state_eq}
use ne_enclave.Capacity.State.{entry_eq}
use ne_enclave.Capacity.Guards.{Guard}
use ne_enclave.Pool.State.{Instance}
use ne_enclave.Audit.Event.{command_failed}
use ne_enclave.Network.Slots.{Slots}
use ne_enclave.Common.{pure, raise}
use ne_enclave.Common.{bind_rule}
use ne_enclave.Manager.State.{
  WorkspaceManager, SupervisorErrorKind, audit_emit, drop_guard, teardown_network,
  reserve_workspace_capacity, PendingOwner, register_pending_firecracker,
}
use ne_enclave.Audit.Event.{workspace_created}
use ne_enclave.Network.Policy.{setup, NetworkError}
use ne_enclave.Ingress.Registry.{PortRoute}
use ne_enclave.Manager.Requests.{
  CreateWorkspaceRequest, NetworkConfig, ImageError, image_error_kind, exposed_ports_from_request,
}
use ne_enclave.Manager.Create.{
  LaunchError, launch_error_kind, CreateAnswers, launched_instance, provisioned, provision_network,
  register_routes, after_launch, launch_workspace, or_drop, cold_boot,
}
use ne_enclave.Manager.Registry.{
  Instances, Same, LeavesSame, bind-Same, teardown_network-Same, reserve-Same, Registers, Creates,
  register-Registers,
}

module _ (instances : Instances) (answers : CreateAnswers) (req : CreateWorkspaceRequest) where
  provision-Same :
      (network : Option NetworkConfig)
      → LeavesSame instances (provision_network answers.commands_succeed req.workspace_id network)
  unfolding provision_network
  provision-Same none m e = e
  provision-Same (some network) m e = where_networking m.networking
    where
      answered :
          (x : Result NetworkError ℕ × Slots) → Same instances (provisioned req.workspace_id m x)
      answered (ok slot, slots) = e
      answered (err k, slots) = e

      where_networking :
          (networking : Bool)
          → Same instances {A = Option ℕ} (
              if networking
              then provisioned req.workspace_id m
                  (setup answers.commands_succeed network.policy m.slots)
              else (ok none, m))
      where_networking true = answered (setup answers.commands_succeed network.policy m.slots)
      where_networking false = e

  dropped-Same :
      (guard : Guard) (x : Result SupervisorErrorKind (Option ℕ) × WorkspaceManager)
      → Same instances x
      → Same instances (or_drop guard x)
  dropped-Same guard (ok slot, m) e = e
  dropped-Same guard (err k, m) e = e

  images-Same :
      (images : Option ImageError) (m : WorkspaceManager)
      → m.instances ≡ instances
      → Same instances {A = Option ℕ} (elim images [
        | some e ↦ (err (image_error_kind e), m)
        | none ↦ provision_network answers.commands_succeed req.workspace_id req.network m
      ])
  images-Same none m e = provision-Same req.network m e
  images-Same (some k) m e = e

  routes-Registers :
      (instance : Instance) (slot : Option ℕ) (ports : List PortRoute) (t : WorkspaceManager)
      → Registers {A = Unit {0}} req.workspace_id instance instances (ok tt, t)
      → Registers req.workspace_id instance instances
          (register_routes req.workspace_id slot ports t)
  routes-Registers instance none ports t c = c
  routes-Registers instance (some slot) ports t c = c

  launched-Creates :
      (guard : Guard) (slot : Option ℕ) (m : WorkspaceManager)
      → m.instances ≡ instances
      → (x : Result LaunchError String)
      → Creates req.workspace_id instances (after_launch answers req guard slot x m)
  unfolding after_launch
  launched-Creates guard slot m e (err k) =
      bind_rule (Creates req.workspace_id instances) (Same instances)
        (λ _. raise (launch_error_kind k)) (λ a t u. u) (λ k t u. u)
        (teardown_network slot
          >> audit_emit command_failed (some req.workspace_id)
          >> drop_guard guard)
        m
        (bind-Same instances
          (teardown_network slot >> audit_emit command_failed (some req.workspace_id))
          (λ _. drop_guard guard)
          (λ t u.
            bind-Same instances (teardown_network slot)
              (λ _. audit_emit command_failed (some req.workspace_id))
              (teardown_network-Same instances slot) (λ _ s w. w) t u)
          (λ _ t u. u) m e)
  launched-Creates guard slot m e (ok boot_id) =
      let instance = launched_instance req slot boot_id in
      let Q : Result SupervisorErrorKind (Unit {0}) × WorkspaceManager → Type 0 =
        Registers req.workspace_id instance instances in
      let register =
        audit_emit workspace_created (some req.workspace_id)
        >> register_pending_firecracker answers.exit_confirmed req.workspace_id instance
            (PendingOwner.reserved guard) in
      let routes = register_routes req.workspace_id slot (exposed_ports_from_request req.network) in
      bind_rule (Creates req.workspace_id instances) Q (λ _. pure instance) (λ a t c. c)
        (λ k t u. u) (register >> routes) m
        (bind_rule Q Q (λ _. routes)
          (λ a t c. routes-Registers instance slot (exposed_ports_from_request req.network) t c)
          (λ k t u. u) register m
          (register-Registers instances req.workspace_id answers.exit_confirmed instance
            (PendingOwner.reserved guard) _ e))

  pub cold_boot-Creates :
      (m : WorkspaceManager)
      → m.instances ≡ instances
      → Creates req.workspace_id instances (cold_boot answers req m)
  unfolding cold_boot
  cold_boot-Creates m e =
      bind_rule (Creates req.workspace_id instances) (Same instances) _
        (λ guard t u.
          bind_rule (Creates req.workspace_id instances) (Same instances)
            (launch_workspace answers req guard)
            (λ slot s w. launched-Creates guard slot s w answers.launch) (λ k s w. w)
            (λ s. or_drop guard (elim answers.images [
              | some e ↦ (err (image_error_kind e), s)
              | none ↦ provision_network answers.commands_succeed req.workspace_id req.network s
            ]))
            t (dropped-Same guard _ (images-Same answers.images t u)))
        (λ k t u. u) (reserve_workspace_capacity req.workspace_id req.vcpu_count req.mem_size_mib) m
        (reserve-Same instances req.workspace_id req.vcpu_count req.mem_size_mib m e)
