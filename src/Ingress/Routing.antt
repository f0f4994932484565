-- ===== src/Ingress/Routing.antt =====
-- What crates/ne-ingress/src/router.rs lets through.
use ne_enclave.Common.{
  ℕ, Bool, true, ◌≡◌, refl, sym, ap, ◌∙◌, ◌↔◌, some, [], ◌∷◌, ◌++◌, any, arith, nat_eq, Result, ok,
  err, Option-cases, Bool-cases, inl, inr, ◌⊎◌, ◌||◌,
}
use ne_enclave.Text.{Text, to_ascii_lowercase}
use ne_enclave.Ingress.Host.{IngressError, parse, domain_mismatch, bare_host, parse_ingress_host}
use ne_enclave.Ingress.Parsing.{parse_ingress_host-IsHost}
use ne_enclave.Ingress.Registry.{IngressRegistry, Target, resolve}
use ne_enclave.Ingress.Router.{
  allow, deny, parse_error, mismatched_domain, is_link_local, decide_route, route_decision,
}

abbrev pub is_dot : ℕ → Bool
is_dot c = nat_eq c b'.'

any-append : (p : ℕ → Bool) (s t : Text) → any p (s ++ t) ≡ (any p s || any p t)
any-append p [] t = refl
any-append p (c ∷ s) t = ground (arith, any-append p s t)

dot_lower : (s : Text) → any is_dot (to_ascii_lowercase s) ≡ any is_dot s
unfolding to_ascii_lowercase
dot_lower [] = refl
dot_lower (c ∷ s) = ground (arith, dot_lower s)

-- A host that parses holds a dot.
host_has_dot :
    (host domain : Text) (port : ℕ) (wsid : Text)
    → parse_ingress_host host domain ≡ ok (port, wsid)
    → any is_dot (bare_host host) ≡ true
host_has_dot host domain port wsid h =
    let v = parse_ingress_host-IsHost host domain port wsid h in
    sym (dot_lower (bare_host host))
    ∙ ap (any is_dot) v.domain_matches
    ∙ any-append is_dot v.label_lower (b'.' ∷ to_ascii_lowercase domain)
    ∙ ground arith

-- The first structural check never refuses a host that parses.
pub route_decision_parsed :
    (host domain : Text) (reg : IngressRegistry) (port : ℕ) (wsid : Text)
    → parse_ingress_host host domain ≡ ok (port, wsid)
    → route_decision host domain reg ≡ decide_route port wsid reg
unfolding route_decision
route_decision_parsed host domain reg port wsid h =
    rw (host_has_dot host domain port wsid h, route_decision) (rw h refl)

-- A host that does not parse is denied, as a parse error or a mismatched domain.
route_decision_unparsed :
    (host domain : Text) (reg : IngressRegistry) (e : IngressError)
    → parse_ingress_host host domain ≡ err e
    → (route_decision host domain reg ≡ deny parse_error)
      ⊎ (route_decision host domain reg ≡ deny mismatched_domain)
unfolding route_decision
route_decision_unparsed host domain reg parse h = elim (Bool-cases (any is_dot (bare_host host))) [
  | inl dot ↦ inl (rw (dot, route_decision) (rw h refl))
  | inr no_dot ↦ inl (rw (no_dot, route_decision) refl)
]
route_decision_unparsed host domain reg domain_mismatch h =
    elim (Bool-cases (any is_dot (bare_host host))) [
      | inl dot ↦ inr (rw (dot, route_decision) (rw h refl))
      | inr no_dot ↦ inl (rw (no_dot, route_decision) refl)
    ]

-- Why a request is let through.
pub record Admitted (host domain : Text) (reg : IngressRegistry) (target : Target) (wsid : Text)
    (port : ℕ) : Type 0 where
  pub parsed : parse_ingress_host host domain ≡ ok (port, wsid)
  pub exposed : resolve wsid port reg ≡ some target
  pub link_local : is_link_local target.guest_ip ≡ true

pub Result-cases :
    (r : Result IngressError (ℕ × Text))
    → ((v : ℕ × Text) × (r ≡ ok v)) ⊎ ((e : IngressError) × (r ≡ err e))
Result-cases (ok v) = inl (v, refl)
Result-cases (err e) = inr (e, refl)

-- A request is let through to a target exactly if its host parses to the port and the workspace id,
-- the table exposes that port of that workspace to that target, and the target's address is in
-- 169.254.0.0/16.
pub route_decision-allow_iff :
    (host domain : Text) (reg : IngressRegistry) (target : Target) (wsid : Text) (port : ℕ)
    → (route_decision host domain reg ≡ allow target wsid port)
      ↔ Admitted host domain reg target wsid port
unfolding decide_route
route_decision-allow_iff host domain reg target wsid port = (
  λ h. elim (Result-cases (parse_ingress_host host domain)) [
    | inl ((p, w), e) ↦
        let d : decide_route p w reg ≡ allow target wsid port =
          sym (route_decision_parsed host domain reg p w e) ∙ h in
        elim (Option-cases (resolve w p reg)) [
          | inl missing ↦ ground arith
          | inr (t, found) ↦ record {
            parsed = ground arith;
            exposed = ground arith;
            link_local = ground arith;
          }
        ]
    | inr (e, r) ↦ elim (route_decision_unparsed host domain reg e r) [
      | inl d ↦ ground arith
      | inr d ↦ ground arith
    ]
  ],
  λ a.
      route_decision_parsed host domain reg port wsid a.parsed
      ∙ rw (a.exposed, decide_route) (rw a.link_local refl),
)
