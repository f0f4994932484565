-- ===== src/Manager/Terminate.antt =====
-- crates/ne-supervisor/src/workspace.rs: `terminate_inner`.
use ne_enclave.Common.{
  ℕ, Bool, true, false, String, string_eq, Option, none, some, ok, err, raise, ◌>>◌, if◌then◌else◌,
}
use ne_enclave.Map.{lookup, remove}
use ne_enclave.Text.{codes}
use ne_enclave.Audit.Event.{network_teardown, workspace_terminated}
use ne_enclave.Network.Policy.{teardown}
use ne_enclave.Ingress.Registry.{remove_workspace}
use ne_enclave.Manager.State.{
  FirecrackerWorkspace, Manages, audit_emit, drop_guard, fail_closed, workspace_not_found, internal,
}

-- The reclaiming of the network, with its event, where there is a slot and a controller.
abbrev pub reclaim_slot : String → ℕ → Bool → Manages (Unit {0})
reclaim_slot workspace_id slot false m = (ok tt, m)
reclaim_slot workspace_id slot true m =
    audit_emit network_teardown (some workspace_id) (record m { slots = teardown slot m.slots })

abbrev pub reclaim_network : String → Option ℕ → Manages (Unit {0})
reclaim_network workspace_id none m = (ok tt, m)
reclaim_network workspace_id (some slot) m = reclaim_slot workspace_id slot m.networking m

-- Its routes and its nonces go.
abbrev pub clear_workspace : String → Manages (Unit {0})
clear_workspace workspace_id m = (
  ok tt,
  record m {
    ingress = remove_workspace (codes workspace_id) m.ingress;
    attestation_nonces = remove workspace_id m.attestation_nonces;
  },
)

-- The end of a workspace whose process is gone: its guard drops first.
unfoldable pub reclaim : String → FirecrackerWorkspace → Manages (Unit {0})
reclaim workspace_id w = do
  drop_guard w.capacity_guard
  reclaim_network workspace_id w.instance.network_slot
  clear_workspace workspace_id
  audit_emit workspace_terminated (some workspace_id)

-- The removal from the registry comes first; `exit_confirmed` says whether the process is known to be
-- gone.
unfoldable pub terminate_inner : Bool → String → Manages (Unit {0})
unfolding reclaim
terminate_inner exit_confirmed workspace_id m = elim (lookup workspace_id m.instances) [
  | none ↦ (err workspace_not_found, m)
  | some w ↦
      (if exit_confirmed then reclaim workspace_id w else (fail_closed >> raise internal))
        (record m { instances = remove workspace_id m.instances })
]
