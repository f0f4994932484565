-- ===== src/Manager/Examples.antt =====
-- A concrete manager of crates/ne-supervisor/src/workspace.rs and calls that it answers.
use ne_enclave.Common.{
  ◌≤◌, ◌≡◌, refl, true, false, none, some, String, string_eq, List, [], ◌∷◌, ok, length, arith,
  subst, sym, require,
}
use ne_enclave.Map.{lookup, insert, remove, Unique}
use ne_enclave.Text.{codes}
use ne_enclave.Protocol.Profile.{standard}
use ne_enclave.Protocol.Supervisor.{running, paused, workspace_state_eq}
use ne_enclave.Capacity.State.{
  workspace, entry_eq, new, capacity_dimensions, ensure_healthy, entry_count, ensure_capacity,
  preflight_next_revision,
}
use ne_enclave.Capacity.Edits.{IsOpen}
use ne_enclave.Capacity.Admission.{reserve_workspace_entry, register_entry, set_entry_state}
use ne_enclave.Capacity.Guards.{register_in_place, set_guard_state}
use ne_enclave.Capacity.History.{new-Inv}
use ne_enclave.Lifecycle.Claims.{claim, drop_lease}
use ne_enclave.Network.Slots.{repeat}
use ne_enclave.Manager.State.{
  WorkspaceManager, FirecrackerWorkspace, claim_boot, reserve_workspace_capacity,
  register_pending_firecracker,
}
use ne_enclave.Manager.Requests.{
  CreateWorkspaceRequest, check_request, is_image_digest, is_valid_workspace_id,
}
use ne_enclave.Manager.Boot.{
  RestoreAnswers, restore_inner, fork_inner, prepare_snapshot_restore, boot_with_reserved_capacity,
}
use ne_enclave.Manager.Create.{
  CreateAnswers, create_inner, cold_boot, provision_network, after_launch,
}
use ne_enclave.Manager.Terminate.{terminate_inner}
use ne_enclave.Manager.Snapshot.{
  set, mark, finalize_snapshot_state, set_workspace_state, snapshot_preflight,
}
use ne_enclave.Manager.SnapshotInner.{SnapshotAnswers, SnapshotRequest, snapshot_inner}
use ne_enclave.Manager.Soundness.{IsSound}
use ne_enclave.Manager.Histories.{
  Call, creates, restores, marks, finalizes, terminates, step, run, run-IsSound,
}
use ne_enclave.Manager.Ending.{terminate_inner-Keeps}
use ne_enclave.Manager.Registry.{Creates}
use ne_enclave.Manager.Creation.{create_inner_lem, restore_or_fork_lem}
use ne_enclave.Manager.Bounds.{registry-run}
use ne_enclave.Manager.Removal.{Terminated, terminate_inner_lem}
use ne_enclave.Manager.Snapshots.{KeepsSound, snapshot_inner-IsSound}

abbrev fresh : WorkspaceManager
fresh = record {
  execution_profile = standard;
  max_workspace_mem_mib = 4_096;
  networking = true;
  pool = none;
  instances = [];
  lifecycle_claims = [];
  capacity = record {
    revision = 0;
    faulted = false;
    configured_workspace_ceiling = 5;
    next_pool_id = 0;
    workspaces = [];
    pool_entries = [];
  };
  slots = repeat 254 true;
  ingress = record { inner = [] };
  attestation_nonces = [];
  events = [];
}

fresh-IsSound : IsSound [] fresh
unfolding new lookup
fresh-IsSound = record {
  claims_kept = refl;
  inv = new-Inv 5 (omega arith);
  unique = tt;
  guarded = tt;
  agree = λ healthy id. tt;
}

abbrev restore_answers : RestoreAnswers
restore_answers = record {
  verified = ok (record { vcpu_count = 1; mem_size_mib = 256 });
  restore = ok "b2";
  guest_ready = true;
  entropy = true;
  identity_reset = true;
  exit_confirmed = true;
}

abbrev answers : CreateAnswers
answers = record {
  images = none;
  commands_succeed = true;
  launch = ok "b1";
  exit_confirmed = true;
  pool_answers = record { alive = λ _. true; exits = λ _. true };
  restore_answers = restore_answers;
}

abbrev digest : String
digest = "0123456789abcdef0123456789abcdef0123456789abcdef0123456789abcdef"

abbrev req : CreateWorkspaceRequest
req = record {
  workspace_id = "a";
  kernel_sha256 = codes digest;
  rootfs_sha256 = codes digest;
  rootfs_read_only = true;
  vcpu_count = 2;
  mem_size_mib = 512;
  network = none;
  tier = none;
}

-- A creation, a second one of the same id, a restore, and a snapshot of the first workspace.
abbrev calls : List Call
calls =
    creates answers req
    ∷ creates answers req
    ∷ restores restore_answers "s" "b"
    ∷ marks false "a"
    ∷ finalizes true "a" "b1" (set paused)
    ∷ []

run-IsSound_example : IsSound [] (run fresh calls)
run-IsSound_example = run-IsSound [] fresh calls fresh-IsSound

abbrev in_registry : FirecrackerWorkspace
in_registry = record {
  instance = record {
    workspace_id = "a";
    boot_id = "b1";
    lifecycle_state = running;
    network_slot = none;
    vcpu_count = 2;
    mem_size_mib = 512;
    rootfs_read_only = true;
  };
  capacity_guard = some (workspace "a");
}

abbrev created : WorkspaceManager
created = run fresh (creates answers req ∷ [])

created_instances : created.instances ≡ (("a", in_registry) ∷ [])
unfolding run step create_inner check_request is_image_digest claim_boot claim drop_lease cold_boot
    reserve_workspace_capacity reserve_workspace_entry provision_network after_launch
    register_pending_firecracker register_in_place register_entry ensure_healthy ensure_capacity
    entry_count preflight_next_revision require capacity_dimensions lookup insert remove
created_instances = refl

created_nonces : created.attestation_nonces ≡ []
unfolding run step create_inner check_request is_image_digest claim_boot claim drop_lease cold_boot
    reserve_workspace_capacity reserve_workspace_entry provision_network after_launch
    register_pending_firecracker register_in_place register_entry ensure_healthy ensure_capacity
    entry_count preflight_next_revision require capacity_dimensions lookup insert remove
created_nonces = refl

created_ledger : (created.capacity.faulted ≡ false) × (created.capacity.revision ≡ 2)
unfolding run step create_inner check_request is_image_digest claim_boot claim drop_lease cold_boot
    reserve_workspace_capacity reserve_workspace_entry provision_network after_launch
    register_pending_firecracker register_in_place register_entry ensure_healthy ensure_capacity
    entry_count preflight_next_revision require capacity_dimensions lookup insert remove
created_ledger = (refl, refl)

here : lookup "a" created.instances ≡ some in_registry
unfolding lookup
here = rw created_instances refl

created-IsSound : IsSound [] created
created-IsSound = run-IsSound [] fresh (creates answers req ∷ []) fresh-IsSound

created-IsOpen : IsOpen created.capacity
created-IsOpen = record {
  healthy = created_ledger.0;
  revision_fits = omega (arith, created_ledger.1);
}

nonces-Unique : Unique created.attestation_nonces
nonces-Unique = subst Unique (sym created_nonces) tt

terminate_inner_lem_example : Terminated "a" created (terminate_inner true "a" created)
terminate_inner_lem_example =
    terminate_inner_lem [] "a" created in_registry created-IsSound created-IsOpen nonces-Unique here

-- The ledger counts the state of the paused workspace, and both are registered.
calls_healthy : (run fresh calls).capacity.faulted ≡ false
unfolding run step restore_inner prepare_snapshot_restore is_valid_workspace_id
    boot_with_reserved_capacity mark finalize_snapshot_state set_workspace_state snapshot_preflight
    set_guard_state set_entry_state create_inner check_request is_image_digest claim_boot claim
    drop_lease cold_boot reserve_workspace_capacity reserve_workspace_entry provision_network
    after_launch register_pending_firecracker register_in_place register_entry ensure_healthy
    ensure_capacity entry_count preflight_next_revision require capacity_dimensions lookup insert
    remove
calls_healthy = refl

two_registered : length (run fresh calls).instances ≡ 2
unfolding run step restore_inner prepare_snapshot_restore is_valid_workspace_id
    boot_with_reserved_capacity mark finalize_snapshot_state set_workspace_state snapshot_preflight
    set_guard_state set_entry_state create_inner check_request is_image_digest claim_boot claim
    drop_lease cold_boot reserve_workspace_capacity reserve_workspace_entry provision_network
    after_launch register_pending_firecracker register_in_place register_entry ensure_healthy
    ensure_capacity entry_count preflight_next_revision require capacity_dimensions lookup insert
    remove
two_registered = refl

registry-run_example :
    length (run fresh calls).instances ≤ (run fresh calls).capacity.configured_workspace_ceiling
registry-run_example = registry-run [] fresh calls fresh-IsSound calls_healthy

-- The workspace is terminated while its memory is dumped.
abbrev snapshot_answers : SnapshotAnswers
snapshot_answers = record {
  pauses = true;
  dumps = true;
  resumes = true;
  dir_created = true;
  copied = true;
  signing_key = true;
  manifest_written = true;
  swap_answers = restore_answers;
  old_exits = true;
  snapshot_id = "s";
  provisional_id = "p";
  during_dump = λ m. step m (terminates true "a");
  during_publication = λ m. m;
}

abbrev snapshot_request : SnapshotRequest
snapshot_request = record { workspace_id = "a"; live = true }

dumping_keeps : KeepsSound snapshot_answers.during_dump
unfolding step
dumping_keeps claims m v = terminate_inner-Keeps claims "a" true m v

snapshot_inner-IsSound_example :
    IsSound [] (snapshot_inner snapshot_answers snapshot_request created).1
snapshot_inner-IsSound_example =
    snapshot_inner-IsSound snapshot_answers dumping_keeps (λ claims m v. v) snapshot_request []
      created created-IsSound

create_inner_lem_example : Creates "a" [] (create_inner answers req fresh)
create_inner_lem_example = create_inner_lem answers req fresh

restore_or_fork_lem_example :
    Creates "b" created.instances (restore_inner restore_answers "s" "b" created)
    × Creates "b" created.instances (fork_inner restore_answers "s" "b" created)
restore_or_fork_lem_example = restore_or_fork_lem restore_answers "s" "b" created
