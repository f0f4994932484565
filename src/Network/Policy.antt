-- ===== src/Network/Policy.antt =====
-- crates/ne-supervisor/src/network.rs: the checks of a network policy, and what `setup` and `teardown`
-- do to the slots. The commands that they run are external; the interface and chain names are made of
-- eight hexadecimal digits, so that the checks of their length pass.
use ne_enclave.Common.{
  ℕ, ◌^◌, Bool, true, false, not, ◌&&◌, ◌||◌, Option, none, some, List, [], ◌∷◌, Result, ok, err,
  all, length, leb, ltb, nat_eq, if◌then◌else◌,
}
use ne_enclave.Text.{
  Text, trim, strip_prefix, trim_end_matches, split, split_once, parse_unsigned, starts_with_char,
  ends_with_char, is_ascii_alphanumeric, is_empty,
}
use ne_enclave.Network.Slots.{Slots, allocate_slot, release_slot}

pub data NetworkError : Type 0 where
  command pool_exhausted invalid_cidr invalid_hostname : NetworkError

-- The length of a text is counted in code points: where it has others than ASCII, whose length in
-- bytes is greater, a label is refused all the same by the test of its characters.
abbrev pub is_label : Text → Bool
is_label label =
    not (is_empty label || ltb 63 (length label))
    && not (starts_with_char b'-' label || ends_with_char b'-' label)
    && all (λ c. is_ascii_alphanumeric c || nat_eq c b'-') label

abbrev pub without_wildcard : Text → Text
without_wildcard s = elim (strip_prefix (b'*' ∷ b'.' ∷ []) s) [ none ↦ s | some rest ↦ rest ]

unfoldable pub validate_hostname : Text → Result NetworkError (Unit {0})
validate_hostname host =
    let trimmed = trim host in
    let stripped = trim_end_matches (λ c. nat_eq c b'.') (without_wildcard trimmed) in
    if is_empty trimmed || ltb 253 (length trimmed)
    then err invalid_hostname
    else if is_empty stripped
    then err invalid_hostname
    else if all is_label (split b'.' stripped)
    then ok tt
    else err invalid_hostname

abbrev pub parses_u8 : Text → Bool
parses_u8 s = elim (parse_unsigned (2 ^ 8) s) [ none ↦ false | some n ↦ true ]

abbrev pub is_prefix_length : Text → Bool
is_prefix_length s = elim (parse_unsigned (2 ^ 8) s) [ none ↦ false | some n ↦ leb n 32 ]

-- The address, and the prefix length behind `/`, where there is one.
abbrev pub cidr_parts : Text → Text × Option Text
cidr_parts cidr = elim (split_once b'/' cidr) [
  | none ↦ (cidr, none)
  | some (address, prefix) ↦ (address, some prefix)
]

unfoldable pub validate_cidr : Text → Result NetworkError (Unit {0})
validate_cidr cidr =
    let (address, prefix) = cidr_parts cidr in
    let octets = split b'.' address in
    if not (nat_eq (length octets) 4)
    then err invalid_cidr
    else if not (all parses_u8 octets)
    then err invalid_cidr
    else elim prefix [
      | none ↦ ok tt
      | some p ↦ if is_prefix_length p then ok tt else err invalid_cidr
    ]

pub record NetworkPolicy : Type 0 where
  pub enable_egress : Bool
  pub allow_cidrs : List Text
  pub allow_hostnames : List Text
  pub enable_privacy_router : Bool

-- The loops over the policy: the first error, if there is one.
unfoldable pub first_error :
    (Text → Result NetworkError (Unit {0})) → List Text → Result NetworkError (Unit {0})
first_error check [] = ok tt
first_error check (t ∷ ts) = elim (check t) [ ok _ ↦ first_error check ts | err e ↦ err e ]

abbrev pub check_policy : NetworkPolicy → Result NetworkError (Unit {0})
check_policy policy = elim (first_error validate_cidr policy.allow_cidrs) [
  | err e ↦ err e
  | ok _ ↦ first_error validate_hostname policy.allow_hostnames
]

-- `setup`, by whether its commands succeed: the error of a command is returned as it comes, and the
-- slot stays taken.
unfoldable pub setup : Bool → NetworkPolicy → Slots → Result NetworkError ℕ × Slots
setup commands_succeed policy slots = elim (check_policy policy) [
  | err e ↦ (err e, slots)
  | ok _ ↦ elim (allocate_slot slots) [
    | none ↦ (err pool_exhausted, slots)
    | some (slot, slots') ↦ if commands_succeed then (ok slot, slots') else (err command, slots')
  ]
]

-- `teardown`, which goes on past each command that fails.
unfoldable pub teardown : ℕ → Slots → Slots
teardown slot slots = release_slot slots slot
