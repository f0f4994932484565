-- ===== src/Ingress/Routes.antt =====
-- The table of crates/ne-ingress/src/registry.rs as what it is for: the address of each workspace and
-- the route of each of its ports, whatever the maps are.
use ne_enclave.Common.{
  ℕ, ◌≡◌, refl, Bool, true, false, ◌&&◌, Option, none, some, List, [], ◌∷◌, arith, nat_eq,
  nat_eq_iff, ℕ_eq, if◌then◌else◌, Option-cases, inl, inr,
}
use ne_enclave.Map.{lookup, insert, remove}
use ne_enclave.Map.Laws.{lookup-insert, lookup-remove}
use ne_enclave.Text.{Text, text_eq, same_text, same_text_iff}
use ne_enclave.Ingress.Registry.{
  IngressRegistry, Ipv4Addr, PortRoute, Target, new, collect_ports, upsert_workspace, expose_port,
  unexpose_port, remove_workspace, resolve, workspace_exists,
}
use ne_enclave.Ingress.Table.{IsTable, last_route, target_of, collect_ports-lookup}
use ne_enclave.Ingress.Entries.{
  Call, upserts, exposes, unexposes, removes, step, run, new-IsTable, step-IsTable,
}

pub record Routes : Type 0 where
  pub address : Text → Option Ipv4Addr
  pub route : Text → ℕ → Option PortRoute

abbrev pub no_routes : Routes
no_routes = record { address = λ w. none; route = λ w port. none }

-- What a call does to the routes. A port is exposed on a known workspace only.
abbrev pub effect : Routes → Call → Routes
effect r (upserts wsid ip ports) = record {
  address = λ w. if same_text wsid w then some ip else r.address w;
  route = λ w port. if same_text wsid w then last_route port ports else r.route w port;
}
effect r (exposes wsid new_route) = record r {
  route = λ w port.
      if same_text wsid w && nat_eq new_route.port port
      then (elim (r.address wsid) [ none ↦ none | some ip ↦ some new_route ])
      else r.route w port;
}
effect r (unexposes wsid closed) = record r {
  route = λ w port. if same_text wsid w && nat_eq closed port then none else r.route w port;
}
effect r (removes wsid) = record {
  address = λ w. if same_text wsid w then none else r.address w;
  route = λ w port. if same_text wsid w then none else r.route w port;
}

abbrev pub effects : Routes → List Call → Routes
effects r [] = r
effects r (c ∷ cs) = effects (effect r c) cs

abbrev address_of : Text → IngressRegistry → Option Ipv4Addr
address_of w g = elim (lookup w g.inner) [ none ↦ none | some ws ↦ some ws.guest_ip ]

abbrev route_of : Text → ℕ → IngressRegistry → Option PortRoute
route_of w port g = elim (lookup w g.inner) [ none ↦ none | some ws ↦ lookup port ws.ports ]

-- The table stands for the routes.
record Refines (g : IngressRegistry) (r : Routes) : Type 0 where
  table : IsTable g
  address : (w : Text) → address_of w g ≡ r.address w
  route : (w : Text) (port : ℕ) → route_of w port g ≡ r.route w port

new-Refines : Refines new no_routes
unfolding new lookup
new-Refines = record { table = new-IsTable; address = λ w. refl; route = λ w port. refl }

module _ (g : IngressRegistry) (r : Routes) (v : Refines g r) where
  upserts-Refines :
      (wsid : Text) (ip : Ipv4Addr) (ports : List PortRoute)
      → Refines (step g (upserts wsid ip ports)) (effect r (upserts wsid ip ports))
  unfolding step upsert_workspace lookup
  upserts-Refines wsid ip ports = record {
    table = step-IsTable g (upserts wsid ip ports) v.table;
    address = λ w. ground (
      arith,
      lookup-insert wsid w (record { guest_ip = ip; ports = collect_ports ports [] }) g.inner,
      v.address w,
    );
    route = λ w port. ground (
      arith,
      lookup-insert wsid w (record { guest_ip = ip; ports = collect_ports ports [] }) g.inner,
      collect_ports-lookup ports [] port,
      v.route w port,
    );
  }

  exposes-Refines :
      (wsid : Text) (route : PortRoute)
      → Refines (step g (exposes wsid route)) (effect r (exposes wsid route))
  unfolding step expose_port
  exposes-Refines wsid route = record {
    table = step-IsTable g (exposes wsid route) v.table;
    address = λ w. elim (Option-cases (lookup wsid g.inner)) [
      | inl e ↦ ground (arith, v.address w)
      | inr (ws, e) ↦ ground (
        arith,
        lookup-insert wsid w (record ws { ports = insert route.port route ws.ports }) g.inner,
        v.address w,
        same_text_iff wsid w,
      )
    ];
    route = λ w port. elim (Option-cases (lookup wsid g.inner)) [
      | inl e ↦ ground (arith, v.route w port, v.address wsid, same_text_iff wsid w)
      | inr (ws, e) ↦ ground (
        arith,
        lookup-insert wsid w (record ws { ports = insert route.port route ws.ports }) g.inner,
        lookup-insert route.port port route ws.ports,
        v.route w port,
        v.address wsid,
        same_text_iff wsid w,
      )
    ];
  }

  unexposes-Refines :
      (wsid : Text) (closed : ℕ)
      → Refines (step g (unexposes wsid closed)) (effect r (unexposes wsid closed))
  unfolding step unexpose_port
  unexposes-Refines wsid closed = record {
    table = step-IsTable g (unexposes wsid closed) v.table;
    address = λ w. elim (Option-cases (lookup wsid g.inner)) [
      | inl e ↦ ground (arith, v.address w)
      | inr (ws, e) ↦ elim (Option-cases (lookup closed ws.ports)) [
        | inl missing ↦ ground (arith, v.address w)
        | inr (old, found) ↦ ground (
          arith,
          lookup-insert wsid w (record ws { ports = remove closed ws.ports }) g.inner,
          v.address w,
          same_text_iff wsid w,
        )
      ]
    ];
    route = λ w port. elim (Option-cases (lookup wsid g.inner)) [
      | inl e ↦ ground (arith, v.route w port, same_text_iff wsid w)
      | inr (ws, e) ↦ elim (Option-cases (lookup closed ws.ports)) [
        | inl missing ↦ ground (arith, v.route w port, same_text_iff wsid w, nat_eq_iff closed port)
        | inr (old, found) ↦ ground (
          arith,
          lookup-insert wsid w (record ws { ports = remove closed ws.ports }) g.inner,
          lookup-remove closed port ws.ports (v.table.unique_ports wsid ws e),
          v.route w port,
          same_text_iff wsid w,
        )
      ]
    ];
  }

  removes-Refines : (wsid : Text) → Refines (step g (removes wsid)) (effect r (removes wsid))
  unfolding step remove_workspace
  removes-Refines wsid = record {
    table = step-IsTable g (removes wsid) v.table;
    address = λ w. ground (arith, lookup-remove wsid w g.inner v.table.unique, v.address w);
    route = λ w port. ground (arith, lookup-remove wsid w g.inner v.table.unique, v.route w port);
  }

step-Refines :
    (g : IngressRegistry) (r : Routes) (c : Call) → Refines g r → Refines (step g c) (effect r c)
step-Refines g r (upserts wsid ip ports) v = upserts-Refines g r v wsid ip ports
step-Refines g r (exposes wsid route) v = exposes-Refines g r v wsid route
step-Refines g r (unexposes wsid closed) v = unexposes-Refines g r v wsid closed
step-Refines g r (removes wsid) v = removes-Refines g r v wsid

run-Refines :
    (g : IngressRegistry) (r : Routes) (cs : List Call)
    → Refines g r
    → Refines (run g cs) (effects r cs)
unfolding run
run-Refines g r [] v = v
run-Refines g r (c ∷ cs) v = run-Refines (step g c) (effect r c) cs (step-Refines g r c v)

-- Where the routes lead.
abbrev pub target : Routes → Text → ℕ → Option Target
target r w port = elim (r.address w) [ none ↦ none | some ip ↦ target_of ip port (r.route w port) ]

abbrev pub is_known : Routes → Text → Bool
is_known r w = elim (r.address w) [ none ↦ false | some ip ↦ true ]

resolve_lem :
    (g : IngressRegistry) (r : Routes) (w : Text) (port : ℕ)
    → Refines g r
    → (resolve w port g ≡ target r w port) × (workspace_exists w g ≡ is_known r w)
unfolding resolve workspace_exists
resolve_lem g r w port v =
    (ground (arith, v.address w, v.route w port), ground (arith, v.address w))

-- From an empty table, after any sequence of operations: what a workspace's port resolves to, and
-- whether a workspace is known, is what the effects of the operations on addresses and routes say. An
-- upsert gives a workspace its address and, for each port, the last of the given routes; exposing a
-- port of a known workspace replaces its route; closing a port and removing a workspace take the route,
-- or all of them, away; and nothing else changes.
pub run-resolve :
    (cs : List Call) (w : Text) (port : ℕ)
    → (resolve w port (run new cs) ≡ target (effects no_routes cs) w port)
      × (workspace_exists w (run new cs) ≡ is_known (effects no_routes cs) w)
run-resolve cs w port =
    resolve_lem (run new cs) (effects no_routes cs) w port
      (run-Refines new no_routes cs new-Refines)
