-- ===== src/Protocol/Replies.antt =====
-- crates/ne-protocol/src/fleet.rs: the answers to a fleet poll, leases and errors, and their
-- validation.
use ne_enclave.Common.{
  ℕ, Bool, true, false, not, ◌&&◌, ◌||◌, Option, none, some, List, [], ◌∷◌, length, Result, ok, leb,
  ltb, nat_eq,
}
use ne_enclave.Text.{Text}
use ne_enclave.Protocol.Fleet.{
  FleetValidationError, FleetProtocolRange, invalid_generation, invalid_sequence, too_many_entries,
  invalid_payload_digest, invalid_poll_delay, invalid_replay_response, invalid_error_guidance,
}
use ne_enclave.Protocol.Contracts.{JobContract}
use ne_enclave.Protocol.Poll.{
  after_check, refuse_if, FleetUuid, FleetSession, validate_session, validate_range,
  validate_contract,
}

-- The expiry is kept as the distance from the epoch and its sign, which nothing here reads.
pub record LeaseHeader : Type 0 where
  pub job_id : Text
  pub lease_id : FleetUuid
  pub attempt_generation : ℕ
  pub lease_expires_at_unix_ms : Bool × ℕ
  pub contract : JobContract
  pub payload_digest : List ℕ

unfoldable pub validate_lease : LeaseHeader → Result FleetValidationError (Unit {0})
unfolding validate_contract
validate_lease self = refuse_if (nat_eq self.attempt_generation 0) invalid_generation (
    refuse_if (not (nat_eq (length self.payload_digest) 32)) invalid_payload_digest
      (validate_contract self.contract))

pub data FleetReplayStatus : Type 0 where
  fresh replayed receipt_obsolete suspended_acknowledgement : FleetReplayStatus

-- The statuses that carry no lease.
abbrev pub carries_none : FleetReplayStatus → Bool
carries_none receipt_obsolete = true
carries_none suspended_acknowledgement = true
carries_none _ = false

pub record FleetPollResponse : Type 0 where
  pub protocol_version : ℕ
  pub session : FleetSession
  pub request_id : FleetUuid
  pub accepted_sequence : ℕ
  pub server_time_unix_ms : Bool × ℕ
  pub poll_after_ms : ℕ
  pub replay_status : FleetReplayStatus
  pub leases : List LeaseHeader

abbrev pub has_leases : FleetPollResponse → Bool
has_leases self = elim self.leases [ [] ↦ false | _ ∷ _ ↦ true ]

unfoldable pub validate_leases : List LeaseHeader → Result FleetValidationError (Unit {0})
unfolding validate_lease
validate_leases [] = ok tt
validate_leases (header ∷ rest) = after_check (validate_lease header) (validate_leases rest)

-- `FleetPollResponse::validate`.
unfoldable pub validate_response : FleetPollResponse → Result FleetValidationError (Unit {0})
unfolding validate_session validate_leases
validate_response self =
    refuse_if (nat_eq self.protocol_version 0 || nat_eq self.accepted_sequence 0) invalid_sequence (
      refuse_if (not (leb 5_000 self.poll_after_ms && leb self.poll_after_ms 60_000))
        invalid_poll_delay
        (after_check (validate_session self.session) (
          refuse_if (ltb 16 (length self.leases)) too_many_entries (
            refuse_if (carries_none self.replay_status && has_leases self) invalid_replay_response
              (validate_leases self.leases)))))

pub data FleetErrorCode : Type 0 where
  malformed_request validation_failed payload_too_large unauthenticated : FleetErrorCode
  lifecycle_denied sequence_gap rate_limited protocol_conflict : FleetErrorCode
  request_conflict session_fenced internal unavailable : FleetErrorCode

pub record FleetErrorResponse : Type 0 where
  pub code : FleetErrorCode
  pub expected_sequence : Option ℕ
  pub retry_after_ms : Option ℕ
  pub supported_protocol : Option FleetProtocolRange

abbrev pub is_positive : Option ℕ → Bool
is_positive none = false
is_positive (some n) = ltb 0 n

abbrev pub is_some {ℓ} : {A : Type ℓ} → Option A → Bool
is_some none = false
is_some (some a) = true

-- The `match` on the code: which guidance it comes with.
unfoldable pub valid_guidance : FleetErrorResponse → Bool
valid_guidance self = elim self.code [
  | sequence_gap ↦
      is_positive self.expected_sequence
      && is_positive self.retry_after_ms
      && not (is_some self.supported_protocol)
  | rate_limited ↦
      not (is_some self.expected_sequence)
      && is_positive self.retry_after_ms
      && not (is_some self.supported_protocol)
  | unavailable ↦
      not (is_some self.expected_sequence)
      && is_positive self.retry_after_ms
      && not (is_some self.supported_protocol)
  | protocol_conflict ↦
      not (is_some self.expected_sequence)
      && not (is_some self.retry_after_ms)
      && is_some self.supported_protocol
  | _ ↦
      not (is_some self.expected_sequence)
      && not (is_some self.retry_after_ms)
      && not (is_some self.supported_protocol)
]

-- `FleetErrorResponse::validate`.
unfoldable pub validate_error : FleetErrorResponse → Result FleetValidationError (Unit {0})
unfolding validate_range valid_guidance
validate_error self =
    after_check
      (elim self.supported_protocol [ none ↦ ok tt | some protocol ↦ validate_range protocol ])
      (refuse_if (not (valid_guidance self)) invalid_error_guidance (ok tt))
