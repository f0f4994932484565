-- ===== src/Ingress/Denial.antt =====
-- Why crates/ne-ingress/src/router.rs denies a request.
use ne_enclave.Common.{
  ℕ, true, false, ◌≡◌, refl, sym, ap, ◌∙◌, ◌↔◌, ◌⊎◌, none, some, [], ◌∷◌, ◌++◌, any, arith,
  nat_eq_iff, ok, err, Option-cases, Bool-cases, inl, inr, subst, ℕ_eq,
}
use ne_enclave.Map.{lookup}
use ne_enclave.Text.{Text, text_eq}
use ne_enclave.Ingress.Host.{parse, domain_mismatch, bare_host, parse_ingress_host}
use ne_enclave.Ingress.Registry.{
  IngressRegistry, Ipv4Addr, PortRoute, WorkspaceRoutes, Target, resolve, workspace_exists,
}
use ne_enclave.Ingress.Router.{
  DenyReason, allow, deny, parse_error, mismatched_domain, unknown_workspace, unexposed_port,
  ssrf_guard, is_link_local, decide_route, route_decision,
}
use ne_enclave.Ingress.Routing.{is_dot, route_decision_parsed, Result-cases}

abbrev pub HasDot : Text → Type 0
HasDot s = (before : Text) × (after : Text) × (s ≡ before ++ b'.' ∷ after)

-- An address in 169.254.0.0/16.
abbrev pub IsLinkLocal : Ipv4Addr → Type 0
IsLinkLocal ip = (ip.a ≡ 169) × (ip.b ≡ 254)

-- The facts for which a request is denied.
abbrev pub Why : Text → Text → IngressRegistry → DenyReason → Type 0
Why host domain reg parse_error =
    (¬ HasDot (bare_host host)) ⊎ (parse_ingress_host host domain ≡ err parse)
Why host domain reg mismatched_domain =
    HasDot (bare_host host) × (parse_ingress_host host domain ≡ err domain_mismatch)
Why host domain reg unknown_workspace =
    (port : ℕ) × (wsid : Text) × (parse_ingress_host host domain ≡ ok (port, wsid))
    × (lookup wsid reg.inner ≡ none)
Why host domain reg unexposed_port =
    (port : ℕ) × (wsid : Text) × (ws : WorkspaceRoutes) × (parse_ingress_host host domain
      ≡ ok (port, wsid))
    × (lookup wsid reg.inner ≡ some ws)
    × (lookup port ws.ports ≡ none)
Why host domain reg ssrf_guard =
    (port : ℕ) × (wsid : Text) × (ws : WorkspaceRoutes) × (route : PortRoute) × (parse_ingress_host
        host domain
      ≡ ok (port, wsid))
    × (lookup wsid reg.inner ≡ some ws)
    × (lookup port ws.ports ≡ some route)
    × (¬ IsLinkLocal ws.guest_ip)

dot_between : (before after : Text) → any is_dot (before ++ b'.' ∷ after) ≡ true
dot_between [] after = ground arith
dot_between (c ∷ before) after = ground (arith, dot_between before after)

dot_found : (s : Text) → any is_dot s ≡ true → HasDot s
dot_found [] h = ground arith
dot_found (c ∷ s) h = elim (Bool-cases (is_dot c)) [
  | inl e ↦ ([], s, ap (λ (d : ℕ). d ∷ s) ((nat_eq_iff c b'.').0 e))
  | inr e ↦
      let (before, after, split) = dot_found s (ground arith) in
      (c ∷ before, after, ap (λ (t : Text). c ∷ t) split)
]

any_dot_iff : (s : Text) → (any is_dot s ≡ true) ↔ HasDot s
any_dot_iff s = (dot_found s, λ (before, after, e). ap (any is_dot) e ∙ dot_between before after)

is_link_local_iff : (ip : Ipv4Addr) → (is_link_local ip ≡ true) ↔ IsLinkLocal ip
unfolding is_link_local
is_link_local_iff ip = ground arith

module _ (host domain : Text) (reg : IngressRegistry) where
  no_dot_denies :
      any is_dot (bare_host host) ≡ false → route_decision host domain reg ≡ deny parse_error
  unfolding route_decision
  no_dot_denies e = rw (e, route_decision) refl

  -- Each fact leads to its denial.
  denied_for :
      (reason : DenyReason)
      → Why host domain reg reason
      → route_decision host domain reg ≡ deny reason
  unfolding route_decision decide_route resolve workspace_exists
  denied_for parse_error (inl none_there) = elim (Bool-cases (any is_dot (bare_host host))) [
    | inl e ↦ absurd (none_there ((any_dot_iff (bare_host host)).0 e))
    | inr e ↦ no_dot_denies e
  ]
  denied_for parse_error (inr h) = elim (Bool-cases (any is_dot (bare_host host))) [
    | inl e ↦ rw (e, route_decision) (rw h refl)
    | inr e ↦ no_dot_denies e
  ]
  denied_for mismatched_domain (dot, h) =
      rw ((any_dot_iff (bare_host host)).1 dot, route_decision) (rw h refl)
  denied_for unknown_workspace (port, wsid, parsed, missing) =
      route_decision_parsed host domain reg port wsid parsed ∙ ground arith
  denied_for unexposed_port (port, wsid, ws, parsed, found, missing) =
      route_decision_parsed host domain reg port wsid parsed ∙ ground arith
  denied_for ssrf_guard (port, wsid, ws, route, parsed, found, exposed, outside) =
      route_decision_parsed host domain reg port wsid parsed
      ∙ ground (arith, is_link_local_iff ws.guest_ip)

  -- Every request is let through, or denied for a fact.
  decided :
      ((target : Target) × (wsid : Text) × (port : ℕ) × (route_decision host domain reg
          ≡ allow target wsid port))
      ⊎ ((reason : DenyReason) × Why host domain reg reason)
  unfolding decide_route resolve
  decided = elim (Result-cases (parse_ingress_host host domain)) [
    | inr (parse, h) ↦ inr (parse_error, inr h)
    | inr (domain_mismatch, h) ↦ elim (Bool-cases (any is_dot (bare_host host))) [
      | inl e ↦ inr (mismatched_domain, ((any_dot_iff (bare_host host)).0 e, h))
      | inr e ↦ inr (parse_error, inl (λ dot. ground (arith, (any_dot_iff (bare_host host)).1 dot)))
    ]
    | inl ((port, wsid), h) ↦ elim (Option-cases (lookup wsid reg.inner)) [
      | inl missing ↦ inr (unknown_workspace, (port, wsid, h, missing))
      | inr (ws, found) ↦ elim (Option-cases (lookup port ws.ports)) [
        | inl missing ↦ inr (unexposed_port, (port, wsid, ws, h, found, missing))
        | inr (route, exposed) ↦ elim (Bool-cases (is_link_local ws.guest_ip)) [
          | inr outside ↦ inr (
            ssrf_guard,
            (
              port,
              wsid,
              ws,
              route,
              h,
              found,
              exposed,
              λ inside. ground (arith, (is_link_local_iff ws.guest_ip).1 inside),
            ),
          )
          | inl inside ↦ inl (
            record { guest_ip = ws.guest_ip; port = port; inject_headers = route.inject_headers },
            wsid,
            port,
            route_decision_parsed host domain reg port wsid h ∙ ground arith,
          )
        ]
      ]
    ]
  ]

  -- A request is denied for a reason exactly if the fact of that reason holds: its host has no dot or
  -- does not parse; its host has a dot, and the parser finds it outside the domain; the workspace that
  -- the host names is not in the table; it is, but has no route for the port; or it has one, but the
  -- workspace's address is not in 169.254.0.0/16.
  pub route_decision-deny_iff :
      (reason : DenyReason)
      → (route_decision host domain reg ≡ deny reason) ↔ Why host domain reg reason
  route_decision-deny_iff reason = (
    λ h. elim decided [
      | inl (target, wsid, port, e) ↦ ground arith
      | inr (other, fact) ↦
          let d : deny other ≡ deny reason = sym (denied_for other fact) ∙ h in
          subst (Why host domain reg) (cc) fact
    ],
    denied_for reason,
  )
