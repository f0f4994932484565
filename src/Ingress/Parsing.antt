-- ===== src/Ingress/Parsing.antt =====
-- What crates/ne-ingress/src/host.rs accepts.
use ne_enclave.Common.{
  ℕ, ◌^◌, ◌≤◌, ◌<◌, true, false, ◌≡◌, some, [], ◌∷◌, ◌++◌, All, all→All, All→all, length, take,
  take-append, arith, nat_eq, ok, Option-cases, inl, inr,
}
use ne_enclave.Text.{Text, to_ascii_lowercase, strip_suffix, split_once, parse_unsigned}
use ne_enclave.Text.Laws.{
  strip_suffix-append, strip_suffix_of_append, split_once_lem, split_once-append, parse_unsigned-lt,
  to_ascii_lowercase-append, length-to_ascii_lowercase,
}
use ne_enclave.Ingress.Host.{is_wsid_char, is_bad_wsid, parse_label, bare_host, parse_ingress_host}

-- The grammar `[a-zA-Z0-9-]{1,64}`.
pub record IsWsid (wsid : Text) : Type 0 where
  pub nonempty : 1 ≤ length wsid
  pub short : length wsid ≤ 64
  pub chars : All (λ c. is_wsid_char c ≡ true) wsid

is_bad_wsid-IsWsid : (wsid : Text) → is_bad_wsid wsid ≡ false → IsWsid wsid
unfolding is_bad_wsid
is_bad_wsid-IsWsid [] h = ground arith
is_bad_wsid-IsWsid (c ∷ s) h = record {
  nonempty = omega arith;
  short = ground arith;
  chars = all→All is_wsid_char (c ∷ s) (ground arith);
}

good_wsid : (wsid : Text) → IsWsid wsid → is_bad_wsid wsid ≡ false
unfolding is_bad_wsid
good_wsid [] v = absurd (omega (arith, v.nonempty))
good_wsid (c ∷ s) v = ground (arith, v.short, All→all is_wsid_char (c ∷ s) v.chars)

-- A label is a port from 1 to 65535, the first dash, and a workspace id.
pub record IsLabel (label : Text) (port : ℕ) (wsid : Text) : Type 0 where
  pub port_text : Text
  pub split : label ≡ port_text ++ b'-' ∷ wsid
  pub first_dash : All (λ c. nat_eq c b'-' ≡ false) port_text
  pub port_value : parse_unsigned (2 ^ 16) port_text ≡ some port
  pub port_positive : 1 ≤ port
  pub port_below : port < 2 ^ 16
  pub wsid_grammar : IsWsid wsid

parse_label-IsLabel :
    (label : Text) (port : ℕ) (wsid : Text)
    → parse_label label ≡ ok (port, wsid)
    → IsLabel label port wsid
unfolding parse_label
parse_label-IsLabel label port wsid h = elim (Option-cases (split_once b'-' label)) [
  | inl e ↦ ground arith
  | inr ((p, w), e) ↦ elim (Option-cases (parse_unsigned (2 ^ 16) p)) [
    | inl bad ↦ ground arith
    | inr (n, good) ↦
        let halves = split_once_lem b'-' label p w e in
        record {
          port_text = p;
          split = ground (arith, halves.0);
          first_dash = halves.1;
          port_value = ground arith;
          port_positive = ground arith;
          port_below = ground (arith, parse_unsigned-lt (2 ^ 16) p n (omega arith) good);
          wsid_grammar = is_bad_wsid-IsWsid wsid (ground arith);
        }
  ]
]

IsLabel-parse_label :
    (port_text wsid : Text) (port : ℕ)
    → All (λ c. nat_eq c b'-' ≡ false) port_text
    → parse_unsigned (2 ^ 16) port_text ≡ some port
    → 1 ≤ port
    → IsWsid wsid
    → parse_label (port_text ++ b'-' ∷ wsid) ≡ ok (port, wsid)
unfolding parse_label
IsLabel-parse_label port_text wsid port d e p v =
    ground (arith, split_once-append b'-' port_text wsid d, good_wsid wsid v)

-- The bare host is, but for the case of its letters in the domain, a label, a dot and the domain.
pub record IsHost (host domain : Text) (port : ℕ) (wsid : Text) : Type 0 where
  pub label_lower : Text
  pub domain_matches :
      to_ascii_lowercase (bare_host host) ≡ label_lower ++ b'.' ∷ to_ascii_lowercase domain
  pub label : IsLabel (take (length label_lower) (bare_host host)) port wsid

-- Whatever host is accepted has the promised form, its port is from 1 to 65535 and its workspace id
-- is in the jailer's grammar.
pub parse_ingress_host-IsHost :
    (host domain : Text) (port : ℕ) (wsid : Text)
    → parse_ingress_host host domain ≡ ok (port, wsid)
    → IsHost host domain port wsid
unfolding parse_ingress_host
parse_ingress_host-IsHost host domain port wsid h =
    elim (Option-cases
      (strip_suffix (b'.' ∷ to_ascii_lowercase domain) (to_ascii_lowercase (bare_host host)))) [
        | inl e ↦ ground arith
        | inr (l, e) ↦ record {
          label_lower = l;
          domain_matches = strip_suffix-append _ _ l e;
          label = parse_label-IsLabel (take (length l) (bare_host host)) port wsid (ground arith);
        }
      ]

-- A host made of a port, a dash, a workspace id in the grammar, a dot and the domain is parsed to
-- that port and that id, where the host holds no colon and no space around it.
pub parse_ingress_host-format :
    (port_text wsid domain : Text) (port : ℕ)
    → All (λ c. nat_eq c b'-' ≡ false) port_text
    → parse_unsigned (2 ^ 16) port_text ≡ some port
    → 1 ≤ port
    → IsWsid wsid
    → bare_host ((port_text ++ b'-' ∷ wsid) ++ b'.' ∷ domain)
      ≡ (port_text ++ b'-' ∷ wsid) ++ b'.' ∷ domain
    → parse_ingress_host ((port_text ++ b'-' ∷ wsid) ++ b'.' ∷ domain) domain ≡ ok (port, wsid)
unfolding parse_ingress_host to_ascii_lowercase
parse_ingress_host-format port_text wsid domain port d e p v bare =
    let label : Text = port_text ++ b'-' ∷ wsid in
    ground (
      arith,
      to_ascii_lowercase-append label (b'.' ∷ domain),
      strip_suffix_of_append (to_ascii_lowercase label) (b'.' ∷ to_ascii_lowercase domain),
      length-to_ascii_lowercase label,
      take-append label (b'.' ∷ domain),
      IsLabel-parse_label port_text wsid port d e p v,
    )
