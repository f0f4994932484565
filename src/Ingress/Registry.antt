-- ===== src/Ingress/Registry.antt =====
-- crates/ne-ingress/src/registry.rs: the route table. Each operation holds the table's lock from its
-- first read to its last write, so it is a function of the table.
use ne_enclave.Common.{ℕ, Bool, Option, none, some, List, [], ◌∷◌, Result, ok, err, ℕ_eq}
use ne_enclave.Map.{Map, lookup, insert, remove, contains_key}
use ne_enclave.Text.{Text, text_eq}

pub record Ipv4Addr : Type 0 where
  pub a : ℕ
  pub b : ℕ
  pub c : ℕ
  pub d : ℕ

pub record PortRoute : Type 0 where
  pub port : ℕ
  pub inject_headers : List (Text × Text)

pub record WorkspaceRoutes : Type 0 where
  pub guest_ip : Ipv4Addr
  pub ports : Map ℕ PortRoute

pub record Target : Type 0 where
  pub guest_ip : Ipv4Addr
  pub port : ℕ
  pub inject_headers : List (Text × Text)

pub data RegistryError : Type 0 where
  workspace_not_found port_not_found : RegistryError

pub record IngressRegistry : Type 0 where
  pub inner : Map Text WorkspaceRoutes

unfoldable pub new : IngressRegistry
new = record { inner = [] }

-- `collect` into a map: a later route for a port replaces an earlier one.
unfoldable pub collect_ports : List PortRoute → Map ℕ PortRoute → Map ℕ PortRoute
collect_ports [] m = m
collect_ports (p ∷ ports) m = collect_ports ports (insert p.port p m)

unfoldable pub upsert_workspace :
    Text → Ipv4Addr → List PortRoute → IngressRegistry → IngressRegistry
unfolding collect_ports
upsert_workspace wsid guest_ip ports g = record {
  inner = insert wsid (record { guest_ip = guest_ip; ports = collect_ports ports [] }) g.inner;
}

unfoldable pub expose_port :
    Text → PortRoute → IngressRegistry → Result RegistryError (Unit {0}) × IngressRegistry
expose_port wsid route g = elim (lookup wsid g.inner) [
  | none ↦ (err workspace_not_found, g)
  | some ws ↦ (
    ok tt,
    record { inner = insert wsid (record ws { ports = insert route.port route ws.ports }) g.inner },
  )
]

-- `HashMap::remove` changes nothing where the port is not exposed.
unfoldable pub unexpose_port :
    Text → ℕ → IngressRegistry → Result RegistryError (Unit {0}) × IngressRegistry
unexpose_port wsid port g = elim (lookup wsid g.inner) [
  | none ↦ (err workspace_not_found, g)
  | some ws ↦ elim (lookup port ws.ports) [
    | none ↦ (err port_not_found, g)
    | some route ↦
        (ok tt, record { inner = insert wsid (record ws { ports = remove port ws.ports }) g.inner })
  ]
]

unfoldable pub remove_workspace : Text → IngressRegistry → IngressRegistry
remove_workspace wsid g = record { inner = remove wsid g.inner }

unfoldable pub resolve : Text → ℕ → IngressRegistry → Option Target
resolve wsid port g = elim (lookup wsid g.inner) [
  | none ↦ none
  | some ws ↦ elim (lookup port ws.ports) [
    | none ↦ none
    | some route ↦
        some (record { guest_ip = ws.guest_ip; port = port; inject_headers = route.inject_headers })
  ]
]

unfoldable pub workspace_exists : Text → IngressRegistry → Bool
workspace_exists wsid g = contains_key wsid g.inner
