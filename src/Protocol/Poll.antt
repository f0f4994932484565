-- ===== src/Protocol/Poll.antt =====
-- crates/ne-protocol/src/fleet.rs: the messages of a fleet poll, and their validation.
pub mod Distinct
pub mod Attempts
pub mod Validity
use ne_enclave.Common.{
  ℕ, ◌+◌, Bool, true, false, ◌&&◌, ◌||◌, not, ◌≡◌, ◌↔◌, arith, Option, none, some, List, [], ◌∷◌,
  map, length, Result, ok, err, leb, ltb, nat_eq, nat_eq_iff, Eq, if◌then◌else◌,
}
use ne_enclave.Text.{Text}
use ne_enclave.Protocol.Fleet.{
  FleetValidationError, FleetProtocolRange, protocol_range, RunnerCapacity, validate, contains,
  has_duplicates, invalid_generation, invalid_sequence, too_many_entries,
  duplicate_attempt_operation, invalid_payload_digest, invalid_poll_delay, invalid_replay_response,
  invalid_error_guidance,
}
use ne_enclave.Protocol.Contracts.{JobContract, contract_eq, job_contract}

-- `r?;` and what follows.
abbrev pub after_check :
    {A : Type 0}
    → Result FleetValidationError A
    → Result FleetValidationError (Unit {0})
    → Result FleetValidationError (Unit {0})
after_check (err e) next = err e
after_check (ok a) next = next

-- `if bad { return Err(e) }` and what follows.
abbrev pub refuse_if :
    Bool
    → FleetValidationError
    → Result FleetValidationError (Unit {0})
    → Result FleetValidationError (Unit {0})
refuse_if true e next = err e
refuse_if false e next = next

-- The 128 bits of a `FleetUuid`, as a number.
abbrev pub FleetUuid : Type 0
FleetUuid = ℕ

pub record FleetSession : Type 0 where
  pub session_id : FleetUuid
  pub generation : ℕ

unfoldable pub validate_session : FleetSession → Result FleetValidationError (Unit {0})
validate_session self = if nat_eq self.generation 0 then err invalid_generation else ok tt

-- `FleetProtocolRange::validate` and `JobContract::validate`.
unfoldable pub validate_range : FleetProtocolRange → Result FleetValidationError (Unit {0})
validate_range self = after_check (protocol_range self.min_version self.max_version) (ok tt)

unfoldable pub validate_contract : JobContract → Result FleetValidationError (Unit {0})
validate_contract self = after_check (job_contract self.id self.version) (ok tt)

pub record LeaseRenewal : Type 0 where
  pub job_id : Text
  pub lease_id : FleetUuid
  pub attempt_generation : ℕ

pub record LeaseRelease : Type 0 where
  pub job_id : Text
  pub lease_id : FleetUuid
  pub attempt_generation : ℕ

pub data TerminalOutcome : Type 0 where
  succeeded failed_retryable failed_terminal : TerminalOutcome

pub record TerminalReport : Type 0 where
  pub job_id : Text
  pub lease_id : FleetUuid
  pub attempt_generation : ℕ
  pub outcome : TerminalOutcome
  pub result_code : Text
  pub cpu_milliseconds : ℕ
  pub output_bytes : ℕ

pub record FleetPollRequest : Type 0 where
  pub protocol : FleetProtocolRange
  pub process_instance_id : FleetUuid
  pub session : Option FleetSession
  pub request_id : FleetUuid
  pub sequence : ℕ
  pub capacity : RunnerCapacity
  pub supported_contracts : List JobContract
  pub renewals : List LeaseRenewal
  pub releases : List LeaseRelease
  pub terminal_reports : List TerminalReport

-- What the set of attempt operations holds: a lease and the generation of the attempt.
abbrev pub Attempt : Type 0
Attempt = FleetUuid × ℕ

abbrev pub same_attempt : Attempt → Attempt → Bool
same_attempt (a, g) (b, h) = nat_eq a b && nat_eq g h

pub same_attempt_iff : (a b : Attempt) → (same_attempt a b ≡ true) ↔ (a ≡ b)
same_attempt_iff (a, g) (b, h) = (
  λ e. cc ((nat_eq_iff a b).0 (ground arith), (nat_eq_iff g h).0 (ground arith)),
  λ e. ground arith,
)

instance abbrev pub attempt_eq : Eq Attempt
attempt_eq = record { beq = same_attempt; beq_iff = same_attempt_iff }

-- `validate_attempt` and `insert_attempt_operation`, for the operations of one kind: the three loops
-- have one body, and hand the set on.
unfoldable pub insert_attempts :
    List Attempt → List Attempt → Result FleetValidationError (List Attempt)
insert_attempts attempts [] = ok attempts
insert_attempts attempts ((lease_id, generation) ∷ rest) =
    let inserted = insert_attempts ((lease_id, generation) ∷ attempts) rest in
    if nat_eq generation 0
    then err invalid_generation
    else if contains attempts (lease_id, generation)
    then err duplicate_attempt_operation
    else inserted

-- The loop over the contracts.
unfoldable pub validate_contracts : List JobContract → Result FleetValidationError (Unit {0})
unfolding validate_contract
validate_contracts [] = ok tt
validate_contracts (c ∷ rest) = after_check (validate_contract c) (validate_contracts rest)

unfoldable pub validate_optional_session :
    Option FleetSession → Result FleetValidationError (Unit {0})
unfolding validate_session
validate_optional_session none = ok tt
validate_optional_session (some session) = validate_session session

-- What the three loops put into the set, in their order.
abbrev pub renewal_attempt : LeaseRenewal → Attempt
renewal_attempt r = (r.lease_id, r.attempt_generation)

abbrev pub release_attempt : LeaseRelease → Attempt
release_attempt r = (r.lease_id, r.attempt_generation)

abbrev pub report_attempt : TerminalReport → Attempt
report_attempt r = (r.lease_id, r.attempt_generation)

unfoldable pub insert_all_attempts : FleetPollRequest → Result FleetValidationError (Unit {0})
unfolding insert_attempts
insert_all_attempts self = elim (insert_attempts [] (map renewal_attempt self.renewals)) [
  | err e ↦ err e
  | ok renewed ↦ elim (insert_attempts renewed (map release_attempt self.releases)) [
    | err e ↦ err e
    | ok released ↦
        after_check (insert_attempts released (map report_attempt self.terminal_reports)) (ok tt)
  ]
]

-- The test of the sizes, and of contracts that repeat. A list of more than 2 ^ 64 entries has no
-- place in memory, so the sum of the three lengths does not wrap.
unfoldable pub too_many : FleetPollRequest → Bool
too_many self =
    ltb 32 (length self.supported_contracts)
    || ltb 64 (length self.renewals + length self.releases + length self.terminal_reports)
    || has_duplicates self.supported_contracts

unfoldable pub bad_sequence : FleetPollRequest → Bool
bad_sequence self =
    nat_eq self.sequence 0
    || (elim self.session [ none ↦ not (nat_eq self.sequence 1) | some session ↦ false ])

-- `FleetPollRequest::validate`.
unfoldable pub validate_request : FleetPollRequest → Result FleetValidationError (Unit {0})
unfolding validate_range bad_sequence validate_optional_session too_many validate_contracts
    insert_all_attempts
validate_request self = after_check (validate_range self.protocol) (
    refuse_if (bad_sequence self) invalid_sequence (
      after_check (validate_optional_session self.session) (
        after_check (validate self.capacity) (
          refuse_if (too_many self) too_many_entries (
            after_check (validate_contracts self.supported_contracts)
              (insert_all_attempts self))))))
