-- ===== src/Ingress/Router.antt =====
-- crates/ne-ingress/src/router.rs: the decision on a request.
use ne_enclave.Common.{ℕ, Bool, ◌&&◌, not, none, some, ok, err, any, nat_eq, if◌then◌else◌}
use ne_enclave.Text.{Text}
use ne_enclave.Ingress.Host.{parse, domain_mismatch, bare_host, parse_ingress_host}
use ne_enclave.Ingress.Registry.{IngressRegistry, Ipv4Addr, Target, resolve, workspace_exists}

pub data DenyReason : Type 0 where
  parse_error mismatched_domain unknown_workspace unexposed_port ssrf_guard : DenyReason

pub data Decision : Type 0 where
  allow : Target → Text → ℕ → Decision
  deny : DenyReason → Decision

-- `Ipv4Addr::is_link_local`: 169.254.0.0/16.
unfoldable pub is_link_local : Ipv4Addr → Bool
is_link_local ip = nat_eq ip.a 169 && nat_eq ip.b 254

-- The `match` on the resolved route.
unfoldable pub decide_route : ℕ → Text → IngressRegistry → Decision
unfolding is_link_local
decide_route port wsid reg = elim (resolve wsid port reg) [
  | some target ↦ if is_link_local target.guest_ip then allow target wsid port else deny ssrf_guard
  | none ↦ if workspace_exists wsid reg then deny unexposed_port else deny unknown_workspace
]

unfoldable pub route_decision : Text → Text → IngressRegistry → Decision
unfolding decide_route
route_decision host domain reg =
    if not (any (λ c. nat_eq c b'.') (bare_host host))
    then deny parse_error
    else elim (parse_ingress_host host domain) [
      | err domain_mismatch ↦ deny mismatched_domain
      | err parse ↦ deny parse_error
      | ok (port, wsid) ↦ decide_route port wsid reg
    ]

-- The status of the answer to a denied request.
unfoldable pub deny_status : DenyReason → ℕ
deny_status mismatched_domain = 421
deny_status _ = 404
