-- ===== src/Protocol/Poll/Validity.antt =====
-- Which poll requests crates/ne-protocol/src/fleet.rs accepts.
use ne_enclave.Common.{
  ℕ, ◌+◌, ◌≤◌, Bool, true, false, not, ◌||◌, ◌≡◌, ◌↔◌, refl, arith, Option, none, some, List, [],
  ◌∷◌, All, length, Result, ok, err, nat_eq,
}
use ne_enclave.Protocol.Fleet.{FleetValidationError, FleetProtocolRange, protocol_range, validate}
use ne_enclave.Protocol.Contracts.{
  JobContract, contract_eq, job_contract, is_contract_id, is_contract_version,
}
use ne_enclave.Protocol.Poll.{
  attempt_eq, after_check, refuse_if, FleetSession, validate_session, validate_range,
  validate_contract, validate_contracts, validate_optional_session, FleetPollRequest, too_many,
  bad_sequence, validate_request,
}
use ne_enclave.Protocol.Poll.Distinct.{Distinct, has_duplicates-Distinct}
use ne_enclave.Protocol.Poll.Attempts.{Positive, attempts_of, insert_all_attempts_iff}

-- The first poll of a process has no session and the sequence 1; a later one names its session.
abbrev pub InSequence : Option FleetSession → ℕ → Type 0
InSequence none sequence = sequence ≡ 1
InSequence (some session) sequence = (1 ≤ sequence) × (1 ≤ session.generation)

abbrev pub IsContract : JobContract → Type 0
IsContract c = (is_contract_id c.id ≡ true) × (is_contract_version c.version ≡ true)

pub record IsRequest (r : FleetPollRequest) : Type 0 where
  pub min_positive : 1 ≤ r.protocol.min_version
  pub ordered : r.protocol.min_version ≤ r.protocol.max_version
  pub in_sequence : InSequence r.session r.sequence
  pub capacity : validate r.capacity ≡ ok tt
  pub few_contracts : length r.supported_contracts ≤ 32
  pub few_operations : length r.renewals + length r.releases + length r.terminal_reports ≤ 64
  pub distinct_contracts : Distinct [] r.supported_contracts
  pub contracts : All IsContract r.supported_contracts
  pub distinct_attempts : Distinct [] (attempts_of r)
  pub positive_attempts : All Positive (attempts_of r)

pub after_check_iff :
    (m n : Result FleetValidationError (Unit {0}))
    → (after_check m n ≡ ok tt) ↔ ((m ≡ ok tt) × (n ≡ ok tt))
after_check_iff (ok t) n = (λ h. (refl, h), λ p. p.1)
after_check_iff (err e) n = ground arith

pub refuse_if_iff :
    (b : Bool) (e : FleetValidationError) (n : Result FleetValidationError (Unit {0}))
    → (refuse_if b e n ≡ ok tt) ↔ ((b ≡ false) × (n ≡ ok tt))
refuse_if_iff true e n = ground arith
refuse_if_iff false e n = (λ h. (refl, h), λ p. p.1)

pub validate_range_iff :
    (p : FleetProtocolRange)
    → (validate_range p ≡ ok tt) ↔ ((1 ≤ p.min_version) × (p.min_version ≤ p.max_version))
unfolding validate_range protocol_range
validate_range_iff p = ground arith

pub validate_contract_iff : (c : JobContract) → (validate_contract c ≡ ok tt) ↔ IsContract c
unfolding validate_contract job_contract
validate_contract_iff c = ground arith

validate_contracts_iff : (l : List JobContract) → (validate_contracts l ≡ ok tt) ↔ All IsContract l
unfolding validate_contracts
validate_contracts_iff [] = ground arith
validate_contracts_iff (c ∷ l) =
    let (there, back) = after_check_iff (validate_contract c) (validate_contracts l) in
    (
      λ h. let (a, b) = there h in ((validate_contract_iff c).0 a, (validate_contracts_iff l).0 b),
      λ p. back ((validate_contract_iff c).1 p.0, (validate_contracts_iff l).1 p.1),
    )

sequence_iff :
    (r : FleetPollRequest)
    → ((bad_sequence r ≡ false) × (validate_optional_session r.session ≡ ok tt))
      ↔ InSequence r.session r.sequence
unfolding bad_sequence validate_optional_session validate_session
sequence_iff r = by_session r.session
  where
    by_session :
        (o : Option FleetSession)
        → (((nat_eq r.sequence 0
                || (elim o [ none ↦ not (nat_eq r.sequence 1) | some session ↦ false ]))
              ≡ false)
            × (validate_optional_session o ≡ ok tt))
          ↔ InSequence o r.sequence
    by_session none = ground arith
    by_session (some session) = ground arith

sizes_iff :
    (r : FleetPollRequest)
    → (too_many r ≡ false) ↔ (
        (length r.supported_contracts ≤ 32)
        × (length r.renewals + length r.releases + length r.terminal_reports ≤ 64)
        × Distinct [] r.supported_contracts)
unfolding too_many
sizes_iff r = ground (arith, has_duplicates-Distinct r.supported_contracts)

-- A poll request is accepted exactly if its protocol range is not empty and starts above 0, it is in
-- sequence, its inventory is valid, it has at most 32 contracts, all valid and none twice, and at most
-- 64 operations on attempts, all of a positive generation, with no attempt of a lease renewed, released
-- or reported twice.
pub validate_request_iff : (r : FleetPollRequest) → (validate_request r ≡ ok tt) ↔ IsRequest r
unfolding validate_request
validate_request_iff r = (
  λ h.
      let (range, h1) = (after_check_iff _ _).0 h in
      let (sequence, h2) = (refuse_if_iff _ _ _).0 h1 in
      let (session, h3) = (after_check_iff _ _).0 h2 in
      let (capacity, h4) = (after_check_iff _ _).0 h3 in
      let (sizes, h5) = (refuse_if_iff _ _ _).0 h4 in
      let (contracts, attempts) = (after_check_iff _ _).0 h5 in
      record {
        min_positive = ((validate_range_iff r.protocol).0 range).0;
        ordered = ((validate_range_iff r.protocol).0 range).1;
        in_sequence = (sequence_iff r).0 (sequence, session);
        capacity = capacity;
        few_contracts = ((sizes_iff r).0 sizes).0;
        few_operations = ((sizes_iff r).0 sizes).1;
        distinct_contracts = ((sizes_iff r).0 sizes).2;
        contracts = (validate_contracts_iff r.supported_contracts).0 contracts;
        distinct_attempts = ((insert_all_attempts_iff r).0 attempts).0;
        positive_attempts = ((insert_all_attempts_iff r).0 attempts).1;
      },
  λ v.
      let (sequence, session) = (sequence_iff r).1 v.in_sequence in
      (after_check_iff _ _).1 (
        (validate_range_iff r.protocol).1 (v.min_positive, v.ordered),
        (refuse_if_iff _ _ _).1 (
          sequence,
          (after_check_iff _ _).1 (
            session,
            (after_check_iff _ _).1 (
              v.capacity,
              (refuse_if_iff _ _ _).1 (
                (sizes_iff r).1 (v.few_contracts, v.few_operations, v.distinct_contracts),
                (after_check_iff _ _).1 (
                  (validate_contracts_iff r.supported_contracts).1 v.contracts,
                  (insert_all_attempts_iff r).1 (v.distinct_attempts, v.positive_attempts),
                ),
              ),
            ),
          ),
        ),
      ),
)
