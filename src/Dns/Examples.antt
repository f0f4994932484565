-- ===== src/Dns/Examples.antt =====
-- Concrete queries to the filter of crates/ne-dns-filter/src/lib.rs, and the theorems at them.
use ne_enclave.Common.{ℕ, ◌≡◌, ◌↔◌, ◌⊎◌, refl, true, Option, some, none, List, [], ◌∷◌, ◌++◌, arith}
use ne_enclave.Text.{Text, codes, to_ascii_lowercase}
use ne_enclave.Dns.Allowlist.{Unicode, normalize, new, matches}
use ne_enclave.Dns.Wire.{Message, parse_labels, parse_query, rcode_response}
use ne_enclave.Dns.Filter.{forward, handle_one}
use ne_enclave.Dns.Policy.{
  Permits, Covered, Refused, Forwarded, matches-new_iff, handle_one_forwards,
}
use ne_enclave.Dns.Header.{Answers, rcode_response-Answers}
use ne_enclave.Dns.Query.{Label, encode, parse_query-encode, parse_labels-returns}

-- Unicode where every text is ASCII.
abbrev ascii : Unicode
ascii = record { to_lowercase = to_ascii_lowercase; from_utf8 = some }

abbrev patterns : List Text
patterns = codes " *.Example.COM. " ∷ []

abbrev labels : List Label
labels = (codes "api", codes "api") ∷ (codes "example", codes "example") ∷ []

-- The question `api.example`, of type A.
abbrev query : Message
query = 7 ∷ 9 ∷ 1 ∷ 0 ∷ 0 ∷ 1 ∷ 0 ∷ 0 ∷ 0 ∷ 0 ∷ 0 ∷ 0 ∷ (encode labels ++ 0 ∷ 1 ∷ 0 ∷ 1 ∷ [])

-- A resolver that never answers.
abbrev silent : Message → Option Message
silent q = none

matches-new_iff_example :
    (matches ascii (new ascii patterns) (codes "API.example.com") ≡ true)
    ↔ Permits ascii patterns (normalize ascii (codes "API.example.com"))
matches-new_iff_example = matches-new_iff ascii patterns (codes "API.example.com")

handle_one_forwards_example :
    ((qname : Text) × (qtype : ℕ) × Covered ascii patterns query qname qtype
      × (handle_one ascii silent (new ascii patterns) query
          ≡ forward ascii silent query qname qtype)
      × Forwarded ascii silent patterns query (handle_one ascii silent (new ascii patterns) query))
    ⊎ Refused ascii patterns query (handle_one ascii silent (new ascii patterns) query)
handle_one_forwards_example = handle_one_forwards ascii silent patterns query

parse_query-encode_example : parse_query ascii query ≡ some (codes "api.example", 1)
parse_query-encode_example =
    parse_query-encode ascii 7 9 1 0 0 1 0 0 0 0 0 0 labels 0 1 0 1 [] (omega arith) (
      record { nonempty = omega arith; short = omega arith; utf8 = refl },
      (record { nonempty = omega arith; short = omega arith; utf8 = refl }, tt),
    )

parse_labels-returns_example :
    (r : Option (Text × ℕ)) × (parse_labels ascii 30 query [] 12 ≡ some r)
    × (parse_labels ascii 40 query [] 12 ≡ some r)
parse_labels-returns_example = parse_labels-returns ascii 29 10 query [] 12 (omega arith)

abbrev header_only : Message
header_only = 7 ∷ 9 ∷ 0x83 ∷ 0x8f ∷ 0 ∷ 1 ∷ 0 ∷ 2 ∷ 0 ∷ 3 ∷ 0 ∷ 4 ∷ []

rcode_response-Answers_example :
    (resp : Message) × (rcode_response header_only 3 ≡ some resp) × Answers header_only resp 3
rcode_response-Answers_example =
    rcode_response-Answers header_only 3 (ground arith) (omega arith) (omega arith)
