-- ===== src/Manager/Create.antt =====
-- crates/ne-supervisor/src/workspace.rs: `create_inner`, the creation of a workspace.
use ne_enclave.Common.{
  ℕ, Bool, String, Option, none, some, List, Result, ok, err, pure, raise, ◌>>=◌, ◌>>◌, nat_eq,
  if◌then◌else◌,
}
use ne_enclave.Text.{codes}
use ne_enclave.Protocol.Supervisor.{running}
use ne_enclave.Audit.Event.{
  network_setup, command_failed, workspace_created as workspace_created_event,
}
use ne_enclave.Capacity.Guards.{Guard}
use ne_enclave.Pool.State.{Instance}
use ne_enclave.Network.Policy.{setup, NetworkError}
use ne_enclave.Network.Slots.{Slots}
use ne_enclave.Ingress.Registry.{upsert_workspace, Ipv4Addr, PortRoute}
use ne_enclave.Manager.Requests.{
  CreateWorkspaceRequest, NetworkConfig, ImageError, image_error_kind, check_request, both_empty,
  is_confidential, exposed_ports_from_request,
}
use ne_enclave.Manager.Boot.{RestoreAnswers}
use ne_enclave.Manager.Checkout.{PoolAnswers, create_from_pool}
use ne_enclave.Manager.State.{
  WorkspaceManager, SupervisorErrorKind, Manages, audit_emit, drop_guard, teardown_network,
  claim_boot, with_lease, reserve_workspace_capacity, register_pending_firecracker, reserved,
  invalid_request, invalid_image_digest, unsupported, launch_failed,
}

-- `LaunchError`, as `create_inner` tells its cases apart.
pub data LaunchError : Type 0 where
  image : ImageError → LaunchError
  other : LaunchError

abbrev pub launch_error_kind : LaunchError → SupervisorErrorKind
launch_error_kind (image e) = image_error_kind e
launch_error_kind other = launch_failed

-- What the host answers: the images, the commands of the network setup, the launch with the id of the
-- boot, the exit of a process that has to go, and the answers for the warm pool.
pub record CreateAnswers : Type 0 where
  pub images : Option ImageError
  pub commands_succeed : Bool
  pub launch : Result LaunchError String
  pub exit_confirmed : Bool
  pub pool_answers : PoolAnswers
  pub restore_answers : RestoreAnswers

-- The instance of a launch, with the slot that the manager attaches.
abbrev pub launched_instance : CreateWorkspaceRequest → Option ℕ → String → Instance
launched_instance req network_slot boot_id = record {
  workspace_id = req.workspace_id;
  boot_id = boot_id;
  lifecycle_state = running;
  network_slot = network_slot;
  vcpu_count = req.vcpu_count;
  mem_size_mib = req.mem_size_mib;
  rootfs_read_only = req.rootfs_read_only;
}

-- `guest_eth_ip` of `SlotIpLayout::for_slot`.
abbrev pub guest_eth_ip : ℕ → Ipv4Addr
guest_eth_ip slot = record { a = 169; b = 254; c = slot; d = 6 }

-- The setup of the network: the slot, if the request asks for one and there is a controller.
abbrev pub provisioned :
    String
    → WorkspaceManager
    → Result NetworkError ℕ × Slots
    → Result SupervisorErrorKind (Option ℕ) × WorkspaceManager
provisioned workspace_id m (ok slot, slots) =
    (audit_emit network_setup (some workspace_id) >> pure (some slot)) (record m { slots = slots })
provisioned workspace_id m (err e, slots) =
    (audit_emit command_failed (some workspace_id) >> raise launch_failed)
      (record m { slots = slots })

unfoldable pub provision_network : Bool → String → Option NetworkConfig → Manages (Option ℕ)
unfolding setup
provision_network commands_succeed workspace_id none m = (ok none, m)
provision_network commands_succeed workspace_id (some network) m =
    if m.networking
    then provisioned workspace_id m (setup commands_succeed network.policy m.slots)
    else (ok none, m)

-- The routes of a networked workspace.
abbrev pub register_routes : String → Option ℕ → List PortRoute → Manages (Unit {0})
register_routes workspace_id none ports m = (ok tt, m)
register_routes workspace_id (some slot) ports m = (
  ok tt,
  record m { ingress = upsert_workspace (codes workspace_id) (guest_eth_ip slot) ports m.ingress },
)

-- From the answer of the launch on.
unfoldable pub after_launch :
    CreateAnswers
    → CreateWorkspaceRequest
    → Guard
    → Option ℕ
    → Result LaunchError String
    → Manages Instance
unfolding register_pending_firecracker
after_launch answers req guard network_slot (err e) =
    teardown_network network_slot
    >> audit_emit command_failed (some req.workspace_id)
    >> drop_guard guard
    >> raise (launch_error_kind e)
after_launch answers req guard network_slot (ok boot_id) =
    let instance = launched_instance req network_slot boot_id in
    audit_emit workspace_created_event (some req.workspace_id)
    >> register_pending_firecracker answers.exit_confirmed req.workspace_id instance
        (reserved guard)
    >> register_routes req.workspace_id network_slot (exposed_ports_from_request req.network)
    >> pure instance

abbrev pub launch_workspace :
    CreateAnswers → CreateWorkspaceRequest → Guard → Option ℕ → Manages Instance
launch_workspace answers req guard network_slot =
    after_launch answers req guard network_slot answers.launch

-- Code that owns a reservation, which is dropped on an early return.
abbrev pub or_drop :
    {A : Type 0}
    → Guard
    → Result SupervisorErrorKind A × WorkspaceManager
    → Result SupervisorErrorKind A × WorkspaceManager
or_drop guard (ok a, m) = (ok a, m)
or_drop guard (err kind, m) = (err kind, (drop_guard guard m).1)

-- The cold boot, from the reservation on.
unfoldable pub cold_boot : CreateAnswers → CreateWorkspaceRequest → Manages Instance
unfolding reserve_workspace_capacity provision_network after_launch
cold_boot answers req = do
  guard ← reserve_workspace_capacity req.workspace_id req.vcpu_count req.mem_size_mib
  network_slot ← λ m. or_drop guard (elim answers.images [
    | some e ↦ (err (image_error_kind e), m)
    | none ↦ provision_network answers.commands_succeed req.workspace_id req.network m
  ])
  launch_workspace answers req guard network_slot

-- `create_inner` behind the claim of the id.
abbrev pub create_claimed : CreateAnswers → CreateWorkspaceRequest → Manages Instance
create_claimed answers req m =
    if is_confidential m.execution_profile then (err unsupported, m) else elim req.tier [
      | some tier ↦ create_from_pool answers.pool_answers answers.restore_answers tier req m
      | none ↦
          if both_empty req
          then (err invalid_image_digest, m)
          else if nat_eq req.vcpu_count 0
          then (err invalid_request, m)
          else cold_boot answers req m
    ]

-- `create_inner`.
unfoldable pub create_inner : CreateAnswers → CreateWorkspaceRequest → Manages Instance
unfolding check_request claim_boot create_from_pool cold_boot
create_inner answers req m = elim (check_request m.execution_profile m.max_workspace_mem_mib req) [
  | some kind ↦ (err kind, m)
  | none ↦
      (claim_boot req.workspace_id >> with_lease req.workspace_id (create_claimed answers req)) m
]
