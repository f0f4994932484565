-- ===== src/Manager/Ports.antt =====
-- crates/ne-supervisor/src/workspace.rs: `expose_port_inner` and `unexpose_port_inner`.
use ne_enclave.Common.{ℕ, String, string_eq, none, some, Result, ok, err}
use ne_enclave.Map.{lookup}
use ne_enclave.Text.{codes}
use ne_enclave.Audit.Event.{EventType, ingress_port_exposed, ingress_port_unexposed}
use ne_enclave.Ingress.Registry.{
  IngressRegistry, PortRoute, RegistryError, expose_port, unexpose_port, port_not_found,
}
use ne_enclave.Manager.State.{
  WorkspaceManager, SupervisorErrorKind, Manages, audit_emit, workspace_not_found,
  workspace_not_networked, ingress_port_not_found,
}

abbrev pub registry_error_kind : RegistryError → SupervisorErrorKind
registry_error_kind port_not_found = ingress_port_not_found
registry_error_kind _ = workspace_not_found

-- The answer of the registry, and the event of a success.
abbrev pub route_changed :
    EventType
    → String
    → (RegistryError → SupervisorErrorKind)
    → WorkspaceManager
    → Result RegistryError (Unit {0}) × IngressRegistry
    → Result SupervisorErrorKind (Unit {0}) × WorkspaceManager
route_changed event workspace_id kind m (ok _, ingress) =
    audit_emit event (some workspace_id) (record m { ingress = ingress })
route_changed event workspace_id kind m (err e, ingress) =
    (err (kind e), record m { ingress = ingress })

unfoldable pub expose_port_inner : String → PortRoute → Manages (Unit {0})
expose_port_inner workspace_id route m = elim (lookup workspace_id m.instances) [
  | none ↦ (err workspace_not_found, m)
  | some w ↦ elim w.instance.network_slot [
    | none ↦ (err workspace_not_networked, m)
    | some slot ↦
        route_changed ingress_port_exposed workspace_id (λ _. workspace_not_found) m
          (expose_port (codes workspace_id) route m.ingress)
  ]
]

unfoldable pub unexpose_port_inner : String → ℕ → Manages (Unit {0})
unexpose_port_inner workspace_id port m =
    route_changed ingress_port_unexposed workspace_id registry_error_kind m
      (unexpose_port (codes workspace_id) port m.ingress)
