-- ===== src/Ingress/Examples.antt =====
-- Concrete hosts and route tables of crates/ne-ingress, and the theorems at them.
use ne_enclave.Common.{◌^◌, ◌≡◌, ◌↔◌, refl, some, List, [], ◌∷◌, arith, ok, ℕ_eq}
use ne_enclave.Map.{lookup, insert, remove}
use ne_enclave.Text.{
  Text, codes, text_eq, to_ascii_lowercase, strip_suffix, split_once, parse_unsigned, parse_digits,
  before, trim, trim_start_matches, trim_end_matches, is_whitespace,
}
use ne_enclave.Ingress.Host.{is_bad_wsid, parse_label, bare_host, parse_ingress_host}
use ne_enclave.Ingress.Registry.{
  IngressRegistry, Ipv4Addr, PortRoute, new, collect_ports, upsert_workspace, expose_port,
  remove_workspace, resolve, workspace_exists,
}
use ne_enclave.Ingress.Router.{route_decision, allow, deny, unknown_workspace}
use ne_enclave.Ingress.Parsing.{
  IsWsid, IsHost, parse_ingress_host-IsHost, parse_ingress_host-format,
}
use ne_enclave.Ingress.Entries.{Call, upserts, exposes, removes, step, run}
use ne_enclave.Ingress.Routing.{Admitted, route_decision-allow_iff}
use ne_enclave.Ingress.Denial.{Why, route_decision-deny_iff}
use ne_enclave.Ingress.Routes.{effects, no_routes, target, is_known, run-resolve}

abbrev guest : Ipv4Addr
guest = record { a = 169; b = 254; c = 0; d = 2 }

abbrev http : PortRoute
http = record { port = 8_080; inject_headers = [] }

abbrev domain : Text
domain = codes "ws.example"

abbrev table : IngressRegistry
table = record {
  inner = (codes "ab", record { guest_ip = guest; ports = (8_080, http) ∷ [] }) ∷ [];
}

abbrev calls : List Call
calls = upserts (codes "ab") guest [] ∷ exposes (codes "ab") http ∷ removes (codes "zz") ∷ []

table_history : run new calls ≡ table
unfolding run step new upsert_workspace collect_ports expose_port remove_workspace lookup insert
    remove
table_history = refl

run-resolve_example :
    (resolve (codes "ab") 8_080 (run new calls)
      ≡ target (effects no_routes calls) (codes "ab") 8_080)
    × (workspace_exists (codes "ab") (run new calls)
        ≡ is_known (effects no_routes calls) (codes "ab"))
run-resolve_example = run-resolve calls (codes "ab") 8_080

abbrev host : Text
host = codes "8080-ab.WS.example:443"

parses : parse_ingress_host host domain ≡ ok (8_080, codes "ab")
unfolding parse_ingress_host parse_label is_bad_wsid to_ascii_lowercase strip_suffix split_once
    parse_unsigned parse_digits before trim trim_start_matches trim_end_matches is_whitespace
parses = refl

parse_ingress_host-IsHost_example : IsHost host domain 8_080 (codes "ab")
parse_ingress_host-IsHost_example = parse_ingress_host-IsHost host domain 8_080 (codes "ab") parses

ab-IsWsid : IsWsid (codes "ab")
ab-IsWsid = record { nonempty = omega arith; short = omega arith; chars = (refl, (refl, tt)) }

port_digits : parse_unsigned (2 ^ 16) (codes "8080") ≡ some 8_080
unfolding parse_unsigned parse_digits
port_digits = refl

nothing_to_strip : bare_host (codes "8080-ab.ws.example") ≡ codes "8080-ab.ws.example"
unfolding before trim trim_start_matches trim_end_matches is_whitespace
nothing_to_strip = refl

parse_ingress_host-format_example :
    parse_ingress_host (codes "8080-ab.ws.example") domain ≡ ok (8_080, codes "ab")
parse_ingress_host-format_example =
    parse_ingress_host-format (codes "8080") (codes "ab") domain 8_080
      (refl, (refl, (refl, (refl, tt)))) port_digits (omega arith) ab-IsWsid nothing_to_strip

route_decision-allow_iff_example :
    (route_decision host domain table
      ≡ allow (record { guest_ip = guest; port = 8_080; inject_headers = [] }) (codes "ab") 8_080)
    ↔ Admitted host domain table
        (record { guest_ip = guest; port = 8_080; inject_headers = [] })
        (codes "ab")
        8_080
route_decision-allow_iff_example =
    route_decision-allow_iff host domain table
      (record { guest_ip = guest; port = 8_080; inject_headers = [] }) (codes "ab") 8_080

route_decision-deny_iff_example :
    (route_decision host domain new ≡ deny unknown_workspace)
    ↔ Why host domain new unknown_workspace
route_decision-deny_iff_example = route_decision-deny_iff host domain new unknown_workspace
