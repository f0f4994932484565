-- ===== src/Dns/Wire.antt =====
-- crates/ne-dns-filter/src/lib.rs: the DNS messages that the filter reads and writes. A message is
-- a list of bytes.
use Prim.Native.Nat.{bit_and, bit_or}
use ne_enclave.Common.{
  ℕ, zero, suc, ◌+◌, ◌*◌, ◌||◌, not, Option, none, some, List, [], ◌∷◌, ◌++◌, length, get_elem?,
  take, drop, ltb, nat_eq, if◌then◌else◌,
}
use ne_enclave.Text.{Text, is_empty}
use ne_enclave.Dns.Allowlist.{Unicode}

abbrev pub Message : Type 0
Message = List ℕ

-- `u16::from_be_bytes` at a position.
abbrev pub be16_at : Message → ℕ → Option ℕ
be16_at buf pos = elim (get_elem? buf pos) [
  | none ↦ none
  | some high ↦ elim (get_elem? buf (pos + 1)) [ none ↦ none | some low ↦ some (256 * high + low) ]
]

-- `&buf[from..from + n]`.
abbrev pub slice : Message → ℕ → ℕ → Message
slice buf from n = take n (drop from buf)

-- The name so far, with a dot after it unless it is empty, and the next label.
abbrev pub push_label : Text → Text → Text
push_label name label = if is_empty name then label else name ++ b'.' ∷ label

module _ (u : Unicode) where
  -- The loop of `parse_query`, on fuel. `some none` is its return of `None`, `some (some r)` its end
  -- with the name and the position behind its last byte; `none` says that the fuel ran out.
  unfoldable pub parse_labels : ℕ → Message → Text → ℕ → Option (Option (Text × ℕ))
  parse_labels zero buf name pos = none
  parse_labels (suc fuel) buf name pos = elim (get_elem? buf pos) [
    | none ↦ some none
    | some len ↦
        if nat_eq len 0
        then some (some (name, pos + 1))
        else if not (nat_eq (bit_and len 0xc0) 0)
        then some none
        else if ltb 63 len || ltb (length buf) (pos + 1 + len)
        then some none
        else elim (u.from_utf8 (slice buf (pos + 1) len)) [
          | none ↦ some none
          | some label ↦ parse_labels fuel buf (push_label name label) (pos + 1 + len)
        ]
  ]

  -- What follows the loop.
  abbrev pub read_qtype : Message → Option (Text × ℕ) → Option (Text × ℕ)
  read_qtype buf none = none
  read_qtype buf (some (name, pos)) =
      if ltb (length buf) (pos + 4)
      then none
      else elim (be16_at buf pos) [ none ↦ none | some qtype ↦ some (name, qtype) ]

  unfoldable pub parse_query : Message → Option (Text × ℕ)
  unfolding parse_labels
  parse_query buf = if ltb (length buf) 12 then none else elim (be16_at buf 4) [
    | none ↦ none
    | some qdcount ↦
        if nat_eq qdcount 0 then none else elim (parse_labels (suc (length buf)) buf [] 12) [
          | none ↦ none
          | some labels ↦ read_qtype buf labels
        ]
  ]

-- Sets QR and clears TC.
abbrev pub response_flags : ℕ → ℕ
response_flags b = bit_and (bit_or b 0x80) 0xfd

abbrev pub response_code : ℕ → ℕ → ℕ
response_code rcode b = bit_or (bit_and b 0x70) (bit_and rcode 0x0f)

unfoldable pub rcode_response : Message → ℕ → Option Message
rcode_response (i0 ∷ i1 ∷ f0 ∷ f1 ∷ q0 ∷ q1 ∷ _ ∷ _ ∷ _ ∷ _ ∷ _ ∷ _ ∷ rest) rcode =
    some (
      i0 ∷ i1 ∷ response_flags f0 ∷ response_code rcode f1 ∷ q0 ∷ q1 ∷ 0 ∷ 0 ∷ 0 ∷ 0 ∷ 0 ∷ 0 ∷ rest)
rcode_response _ rcode = none

unfoldable pub nxdomain_response : Message → Option Message
unfolding rcode_response
nxdomain_response query = rcode_response query 3

unfoldable pub formerr_response : Message → Option Message
unfolding rcode_response
formerr_response query = rcode_response query 1
