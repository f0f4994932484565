-- ===== src/Manager/Removal.antt =====
-- What `terminate_inner` of crates/ne-supervisor/src/workspace.rs takes away.
use ne_enclave.Common.{
  ℕ, ◌≡◌, refl, ap, ◌∙◌, Bool, true, false, String, string_eq, eq_iff, arith, Option, none, some,
  List, Result, ok, inl, inr, Bool-cases, ◌==◌, ◌>>◌, if◌then◌else◌,
}
use ne_enclave.Map.{lookup, remove, Unique}
use ne_enclave.Map.Laws.{lookup-remove}
use ne_enclave.Protocol.Supervisor.{workspace_state_eq}
use ne_enclave.Capacity.State.{CapacityState, workspace, entry_eq}
use ne_enclave.Capacity.Edits.{IsOpen}
use ne_enclave.Capacity.Admission.{remove_entry}
use ne_enclave.Capacity.Guards.{Guard, release_entry}
use ne_enclave.Lifecycle.Claims.{LifecycleClaims}
use ne_enclave.Audit.Event.{workspace_terminated}
use ne_enclave.Network.Slots.{Slots}
use ne_enclave.Manager.State.{
  WorkspaceManager, FirecrackerWorkspace, SupervisorErrorKind, AuditEntry, audit_emit, drop_guard,
}
use ne_enclave.Capacity.Dropping.{dropped_lem, nothing_lem}
use ne_enclave.Manager.Soundness.{IsSound}
use ne_enclave.Text.{codes}
use ne_enclave.Ingress.Registry.{remove_workspace}
use ne_enclave.Capacity.Dropping.{dropped_lem, nothing_lem}
use ne_enclave.Manager.Terminate.{
  reclaim_slot, reclaim_network, clear_workspace, reclaim, terminate_inner,
}
use ne_enclave.Manager.Changes.{guard_at}

-- What the end of a workspace leaves.
pub record Reclaimed (id : String) (w : FirecrackerWorkspace) (m : WorkspaceManager)
    (x : Result SupervisorErrorKind (Unit {0}) × WorkspaceManager) : Type 0 where
  pub answers_ok : x.0 ≡ ok tt
  pub same_instances : x.1.instances ≡ m.instances
  pub released : x.1.capacity ≡ release_entry w.capacity_guard m.capacity
  pub routes_gone : x.1.ingress ≡ remove_workspace (codes id) m.ingress
  pub nonces_gone : x.1.attestation_nonces ≡ remove id m.attestation_nonces

module _ (id : String) (w : FirecrackerWorkspace) (m : WorkspaceManager) where
  end-Reclaimed :
      (slots : Slots) (events : List AuditEntry)
      → Reclaimed id w m (
        ok tt,
        record m {
          slots = slots;
          events = events;
          capacity = release_entry w.capacity_guard m.capacity;
          ingress = remove_workspace (codes id) m.ingress;
          attestation_nonces = remove id m.attestation_nonces;
        },
      )
  end-Reclaimed slots events = record {
    answers_ok = refl;
    same_instances = refl;
    released = refl;
    routes_gone = refl;
    nonces_gone = refl;
  }

  slot-Reclaimed :
      (slot : ℕ) (networking : Bool)
      → Reclaimed id w m (
          (drop_guard w.capacity_guard
              >> (reclaim_slot id slot networking
                  >> (clear_workspace id >> audit_emit workspace_terminated (some id))))
            m)
  slot-Reclaimed slot true = end-Reclaimed _ _
  slot-Reclaimed slot false = end-Reclaimed _ _

  network-Reclaimed :
      (slot : Option ℕ)
      → Reclaimed id w m (
          (drop_guard w.capacity_guard
              >> (reclaim_network id slot
                  >> (clear_workspace id >> audit_emit workspace_terminated (some id))))
            m)
  network-Reclaimed none = end-Reclaimed _ _
  network-Reclaimed (some slot) = slot-Reclaimed slot m.networking

  reclaim-Reclaimed : Reclaimed id w m (reclaim id w m)
  unfolding reclaim
  reclaim-Reclaimed = network-Reclaimed w.instance.network_slot

module _ (claims : LifecycleClaims) (id : String) (m : WorkspaceManager) (w : FirecrackerWorkspace)
    (here : lookup id m.instances ≡ some w) (v : IsSound claims m) (o : IsOpen m.capacity) where
  entry_dropped :
      (j : String)
      → lookup (workspace j) (release_entry (some (workspace id)) m.capacity).workspaces
        ≡ (if id == j then none else lookup (workspace j) m.capacity.workspaces)
  unfolding remove_entry
  entry_dropped j =
      let inv = v.inv in
      elim (Bool-cases (remove_entry (workspace id) m.capacity).0) [
        | inl there ↦
            rw (dropped_lem (workspace id) m.capacity o there) (
              lookup-remove (workspace id) (workspace j) m.capacity.workspaces
                inv.unique_workspaces)
        | inr gone ↦ rw (nothing_lem (workspace id) m.capacity o gone) (ground (arith, eq_iff id j))
      ]

-- What a termination takes away, and that it touches no other workspace.
pub record Terminated (id : String) (m : WorkspaceManager)
    (x : Result SupervisorErrorKind (Unit {0}) × WorkspaceManager) : Type 0 where
  pub answers_ok : x.0 ≡ ok tt
  pub instances_left :
      (j : String) → lookup j x.1.instances ≡ (if id == j then none else lookup j m.instances)
  pub entries_left :
      (j : String)
      → lookup (workspace j) x.1.capacity.workspaces
        ≡ (if id == j then none else lookup (workspace j) m.capacity.workspaces)
  pub nonces_left :
      (j : String)
      → lookup j x.1.attestation_nonces ≡ (if id == j then none else lookup j m.attestation_nonces)
  pub routes_left : x.1.ingress ≡ remove_workspace (codes id) m.ingress

-- A manager is sound, its ledger takes changes, it keeps the nonces of an id once, and the workspace
-- is registered. If the exit of its process is confirmed, the termination succeeds; afterwards the
-- registry has no instance of the id, the ledger no workspace entry of it and the manager no nonces of
-- it, the routes of the id are removed from the ingress registry, and the instances, entries and
-- nonces of all other ids are the same.
pub terminate_inner_lem :
    (claims : LifecycleClaims) (id : String) (m : WorkspaceManager) (w : FirecrackerWorkspace)
    → IsSound claims m
    → IsOpen m.capacity
    → Unique m.attestation_nonces
    → lookup id m.instances ≡ some w
    → Terminated id m (terminate_inner true id m)
unfolding terminate_inner
terminate_inner_lem claims id m w v o unique here =
    let r = reclaim-Reclaimed id w (record m { instances = remove id m.instances }) in
    let guard = guard_at claims m id w here v o.healthy in
    rw (terminate_inner, here)
      (record {
        answers_ok = r.answers_ok;
        instances_left =
            λ j. ap (lookup j) r.same_instances ∙ lookup-remove id j m.instances v.unique;
        entries_left = λ j.
            ap (λ (s : CapacityState). lookup (workspace j) s.workspaces) r.released
            ∙ ap (λ (g : Guard). lookup (workspace j) (release_entry g m.capacity).workspaces) guard
            ∙ entry_dropped claims id m w here v o j;
        nonces_left =
            λ j. ap (lookup j) r.nonces_gone ∙ lookup-remove id j m.attestation_nonces unique;
        routes_left = r.routes_gone;
      })
