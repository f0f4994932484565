-- ===== src/Dns/Filter.antt =====
-- crates/ne-dns-filter/src/lib.rs: `handle_one`.
use ne_enclave.Common.{ℕ, Bool, true, false, Option, none, some, if◌then◌else◌}
use ne_enclave.Text.{Text, codes}
use ne_enclave.Dns.Allowlist.{Unicode, Allowlist, matches}
use ne_enclave.Dns.Wire.{Message, parse_query, nxdomain_response, formerr_response}

pub data Decision : Type 0 where
  allowed denied malformed : Decision

-- What one query leads to: whether it went to the upstream resolver, the reply to the client, and
-- the audited decision. That the socket may fail to send the reply changes none of these.
pub record Handled : Type 0 where
  pub forwarded : Bool
  pub reply : Option Message
  pub qname : Text
  pub qtype : ℕ
  pub decision : Decision

abbrev pub refuse : Message → Text → ℕ → Bool → Handled
refuse query qname qtype forwarded = record {
  forwarded = forwarded;
  reply = nxdomain_response query;
  qname = qname;
  qtype = qtype;
  decision = denied;
}

-- `upstream` is what the resolver answers to a query, or `none` if it fails or times out.
module _ (u : Unicode) (upstream : Message → Option Message) where
  unfoldable pub forward : Message → Text → ℕ → Handled
  forward query qname qtype = elim (upstream query) [
    | some resp ↦ record {
      forwarded = true;
      reply = some resp;
      qname = qname;
      qtype = qtype;
      decision = allowed;
    }
    | none ↦ refuse query qname qtype true
  ]

  unfoldable pub handle_one : Allowlist → Message → Handled
  unfolding forward
  handle_one allowlist query = elim (parse_query u query) [
    | none ↦ record {
      forwarded = false;
      reply = formerr_response query;
      qname = codes "<malformed>";
      qtype = 0;
      decision = malformed;
    }
    | some (qname, qtype) ↦
        if matches u allowlist qname
        then forward query qname qtype
        else refuse query qname qtype false
  ]
