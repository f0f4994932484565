-- ===== src/Protocol/Contracts.antt =====
-- crates/ne-protocol/src/fleet.rs: the grammars of the fleet's identifiers, and job contracts. A byte
-- outside ASCII fails every test of a character, so a text is checked by its code points.
use ne_enclave.Common.{
  ℕ, Bool, true, false, ◌&&◌, ◌||◌, ◌≡◌, ◌↔◌, arith, [], ◌∷◌, all, length, leb, nat_eq, Result, ok,
  err, Eq, if◌then◌else◌,
}
use ne_enclave.Text.{Text, text_eq, same_text, same_text_iff, is_ascii_digit, is_ascii_alphanumeric}
use ne_enclave.Protocol.Fleet.{
  FleetValidationError, invalid_token, invalid_contract_id, invalid_contract_version,
  invalid_result_code,
}

abbrev pub is_lower : ℕ → Bool
is_lower c = leb b'a' c && leb c b'z'

abbrev pub is_upper : ℕ → Bool
is_upper c = leb b'A' c && leb c b'Z'

abbrev pub has_length : ℕ → Text → Bool
has_length most s = leb 1 (length s) && leb (length s) most

-- The test of the first character, which a text of no length does not reach.
abbrev pub starts : (ℕ → Bool) → Text → Bool
starts p [] = false
starts p (c ∷ s) = p c

unfoldable pub is_fleet_token : Text → Bool
is_fleet_token s =
    has_length 64 s
    && starts is_ascii_alphanumeric s
    && all
        (λ c.
          is_ascii_alphanumeric c
          || nat_eq c b'.'
          || nat_eq c b'_'
          || nat_eq c b':'
          || nat_eq c b'-')
        s

unfoldable pub is_contract_id : Text → Bool
is_contract_id s =
    has_length 64 s
    && starts is_lower s
    && all (λ c. is_lower c || is_ascii_digit c || nat_eq c b'.' || nat_eq c b'_' || nat_eq c b'-')
        s

-- `is_ascii_graphic`: from `!` to `~`.
unfoldable pub is_contract_version : Text → Bool
is_contract_version s = has_length 32 s && all (λ c. leb 33 c && leb c 126) s

unfoldable pub is_result_code : Text → Bool
is_result_code s =
    has_length 64 s
    && starts is_upper s
    && all (λ c. is_upper c || is_ascii_digit c || nat_eq c b'_') s

-- `FleetToken::parse` and `FleetResultCode::parse`.
unfoldable pub parse_token : Text → Result FleetValidationError Text
parse_token value = if is_fleet_token value then ok value else err invalid_token

unfoldable pub parse_result_code : Text → Result FleetValidationError Text
parse_result_code value = if is_result_code value then ok value else err invalid_result_code

pub record JobContract : Type 0 where
  pub id : Text
  pub version : Text

abbrev pub same_contract : JobContract → JobContract → Bool
same_contract a b = same_text a.id b.id && same_text a.version b.version

pub same_contract_iff : (a b : JobContract) → (same_contract a b ≡ true) ↔ (a ≡ b)
same_contract_iff a b = (
  λ h.
      let i = (same_text_iff a.id b.id).0 (ground arith) in
      let v = (same_text_iff a.version b.version).0 (ground arith) in cc (i, v),
  λ e. ground (arith, same_text_iff a.id b.id, same_text_iff a.version b.version),
)

instance abbrev pub contract_eq : Eq JobContract
contract_eq = record { beq = same_contract; beq_iff = same_contract_iff }

-- `JobContract::new`.
unfoldable pub job_contract : Text → Text → Result FleetValidationError JobContract
job_contract id version =
    if is_contract_id id
    then (if is_contract_version version
        then ok (record { id = id; version = version })
        else err invalid_contract_version)
    else err invalid_contract_id
