-- ===== src/Ingress/Host.antt =====
-- crates/ne-ingress/src/host.rs: the parser of the `Host` header.
use ne_enclave.Common.{
  ℕ, ◌^◌, Bool, ◌||◌, not, none, some, ◌∷◌, all, length, take, ltb, nat_eq, if◌then◌else◌, Result,
  ok, err,
}
use ne_enclave.Text.{
  Text, is_empty, before, trim, to_ascii_lowercase, strip_suffix, split_once, parse_unsigned,
  is_ascii_alphanumeric,
}

pub data IngressError : Type 0 where
  parse domain_mismatch : IngressError

-- The grammar of jailer identifiers, `[a-zA-Z0-9-]{1,64}`, as the parser tests it.
abbrev pub is_wsid_char : ℕ → Bool
is_wsid_char c = is_ascii_alphanumeric c || nat_eq c b'-'

unfoldable pub is_bad_wsid : Text → Bool
is_bad_wsid wsid = is_empty wsid || ltb 64 (length wsid) || not (all is_wsid_char wsid)

-- From the split label on.
unfoldable pub parse_label : Text → Result IngressError (ℕ × Text)
unfolding is_bad_wsid
parse_label label = elim (split_once b'-' label) [
  | none ↦ err parse
  | some (port_str, wsid) ↦ elim (parse_unsigned (2 ^ 16) port_str) [
    | none ↦ err parse
    | some port ↦
        if nat_eq port 0 then err parse else if is_bad_wsid wsid then err parse else ok (port, wsid)
  ]
]

-- The bare host: what stands before a `:port`, without spaces around it.
abbrev pub bare_host : Text → Text
bare_host host = trim (before b':' host)

unfoldable pub parse_ingress_host : Text → Text → Result IngressError (ℕ × Text)
unfolding parse_label
parse_ingress_host host ingress_domain =
    elim (strip_suffix (b'.' ∷ to_ascii_lowercase ingress_domain)
      (to_ascii_lowercase (bare_host host))) [
        | none ↦ err domain_mismatch
        | some label_lower ↦ parse_label (take (length label_lower) (bare_host host))
      ]
