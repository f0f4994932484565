-- ===== src/Ingress/Entries.antt =====
-- The entries of the tables that the operations of crates/ne-ingress/src/registry.rs build.
use ne_enclave.Common.{
  ℕ, ℕ_eq, ◌≡◌, some, List, [], ◌∷◌, arith, ◌⊎◌, Option-cases, Bool-cases, subst, sym, inl, inr,
}
use ne_enclave.Map.{lookup, insert, Unique}
use ne_enclave.Map.Laws.{lookup-insert, lookup-remove, insert-Unique, remove-Unique}
use ne_enclave.Text.{Text, text_eq, same_text}
use ne_enclave.Ingress.Registry.{
  IngressRegistry, Ipv4Addr, PortRoute, WorkspaceRoutes, new, upsert_workspace, expose_port,
  unexpose_port, remove_workspace,
}
use ne_enclave.Ingress.Table.{IsTable, collect_ports-Unique}

pub data Call : Type 0 where
  upserts : Text → Ipv4Addr → List PortRoute → Call
  exposes : Text → PortRoute → Call
  unexposes : Text → ℕ → Call
  removes : Text → Call

unfoldable pub step : IngressRegistry → Call → IngressRegistry
step g (upserts wsid ip ports) = upsert_workspace wsid ip ports g
step g (exposes wsid route) = (expose_port wsid route g).1
step g (unexposes wsid port) = (unexpose_port wsid port g).1
step g (removes wsid) = remove_workspace wsid g

unfoldable pub run : IngressRegistry → List Call → IngressRegistry
run g [] = g
run g (c ∷ cs) = run (step g c) cs

-- A stored workspace is the new one, or an old one.
insert-cases :
    (wsid w : Text) (ws found : WorkspaceRoutes) (g : IngressRegistry)
    → lookup w (insert wsid ws g.inner) ≡ some found
    → (found ≡ ws) ⊎ (lookup w g.inner ≡ some found)
insert-cases wsid w ws found g h = elim (Bool-cases (same_text wsid w)) [
  | inl e ↦ inl (ground (arith, lookup-insert wsid w ws g.inner))
  | inr e ↦ inr (ground (arith, lookup-insert wsid w ws g.inner))
]

insert-IsTable :
    (wsid : Text) (ws : WorkspaceRoutes) (g : IngressRegistry)
    → Unique ws.ports
    → IsTable g
    → IsTable (record { inner = insert wsid ws g.inner })
insert-IsTable wsid ws g u v = record {
  unique = insert-Unique wsid ws g.inner v.unique;
  unique_ports = λ w found h. elim (insert-cases wsid w ws found g h) [
    | inl e ↦ subst (λ (x : WorkspaceRoutes). Unique x.ports) (sym e) u
    | inr e ↦ v.unique_ports w found e
  ];
}

pub new-IsTable : IsTable new
unfolding new lookup
new-IsTable = record { unique = tt; unique_ports = λ w ws h. ground arith }

expose_port-IsTable :
    (wsid : Text) (route : PortRoute) (g : IngressRegistry)
    → IsTable g
    → IsTable (expose_port wsid route g).1
unfolding expose_port
expose_port-IsTable wsid route g v = elim (Option-cases (lookup wsid g.inner)) [
  | inl e ↦ rw (e, expose_port) v
  | inr (ws, e) ↦
      rw (e, expose_port)
        (insert-IsTable wsid _ g
          (insert-Unique route.port route ws.ports (v.unique_ports wsid ws e)) v)
]

unexpose_port-IsTable :
    (wsid : Text) (port : ℕ) (g : IngressRegistry)
    → IsTable g
    → IsTable (unexpose_port wsid port g).1
unfolding unexpose_port
unexpose_port-IsTable wsid port g v = elim (Option-cases (lookup wsid g.inner)) [
  | inl e ↦ rw (e, unexpose_port) v
  | inr (ws, e) ↦
      rw (e, unexpose_port)
        (elim (Option-cases (lookup port ws.ports)) [
          | inl missing ↦ rw missing v
          | inr (r, found) ↦
              rw found
                (insert-IsTable wsid _ g (remove-Unique port ws.ports (v.unique_ports wsid ws e)) v)
        ])
]

remove_workspace-IsTable :
    (wsid : Text) (g : IngressRegistry) → IsTable g → IsTable (remove_workspace wsid g)
unfolding remove_workspace
remove_workspace-IsTable wsid g v = record {
  unique = remove-Unique wsid g.inner v.unique;
  unique_ports =
      λ w ws h. v.unique_ports w ws (ground (arith, lookup-remove wsid w g.inner v.unique));
}

pub step-IsTable : (g : IngressRegistry) (c : Call) → IsTable g → IsTable (step g c)
unfolding step upsert_workspace
step-IsTable g (upserts wsid ip ports) v =
    insert-IsTable wsid _ g (collect_ports-Unique ports [] tt) v
step-IsTable g (exposes wsid route) v = expose_port-IsTable wsid route g v
step-IsTable g (unexposes wsid port) v = unexpose_port-IsTable wsid port g v
step-IsTable g (removes wsid) v = remove_workspace-IsTable wsid g v
