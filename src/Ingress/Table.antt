-- ===== src/Ingress/Table.antt =====
-- The tables that the operations of crates/ne-ingress/src/registry.rs build.
use ne_enclave.Common.{
  ℕ, ◌≡◌, refl, Option, none, some, List, [], ◌∷◌, arith, nat_eq, ℕ_eq, if◌then◌else◌, ◌∙◌,
}
use ne_enclave.Map.{Map, lookup, insert, Unique}
use ne_enclave.Map.Laws.{lookup-insert, insert-Unique}
use ne_enclave.Text.{Text, text_eq}
use ne_enclave.Ingress.Registry.{
  IngressRegistry, Ipv4Addr, PortRoute, WorkspaceRoutes, Target, collect_ports,
}

-- One entry to a workspace, and one to a port of it.
pub record IsTable (g : IngressRegistry) : Type 0 where
  pub unique : Unique g.inner
  pub unique_ports :
      (w : Text) (ws : WorkspaceRoutes) → lookup w g.inner ≡ some ws → Unique ws.ports

-- The target of a route.
abbrev pub target_of : Ipv4Addr → ℕ → Option PortRoute → Option Target
target_of ip port none = none
target_of ip port (some route) =
    some (record { guest_ip = ip; port = port; inject_headers = route.inject_headers })

-- The last route of a list for a port.
abbrev pub last_route : ℕ → List PortRoute → Option PortRoute
last_route port [] = none
last_route port (r ∷ routes) = elim (last_route port routes) [
  | none ↦ if nat_eq r.port port then some r else none
  | some later ↦ some later
]

pub collect_ports-lookup :
    (ports : List PortRoute) (m : Map ℕ PortRoute) (port : ℕ)
    → lookup port (collect_ports ports m)
      ≡ (elim (last_route port ports) [ none ↦ lookup port m | some r ↦ some r ])
unfolding collect_ports
collect_ports-lookup [] m port = refl
collect_ports-lookup (r ∷ ports) m port =
    collect_ports-lookup ports (insert r.port r m) port
    ∙ ground (arith, lookup-insert r.port port r m)

pub collect_ports-Unique :
    (ports : List PortRoute) (m : Map ℕ PortRoute) → Unique m → Unique (collect_ports ports m)
unfolding collect_ports
collect_ports-Unique [] m u = u
collect_ports-Unique (r ∷ ports) m u = collect_ports-Unique ports _ (insert-Unique r.port r m u)
