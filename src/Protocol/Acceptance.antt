-- ===== src/Protocol/Acceptance.antt =====
-- Which answers to a poll crates/ne-protocol/src/fleet.rs accepts.
use ne_enclave.Common.{
  ℕ, ◌≤◌, false, ◌&&◌, ◌≡◌, ◌↔◌, ◌⊎◌, arith, Option, none, some, List, [], ◌∷◌, All, length, ok,
}
use ne_enclave.Protocol.Fleet.{FleetProtocolRange}
use ne_enclave.Protocol.Poll.{validate_session}
use ne_enclave.Protocol.Poll.Validity.{
  IsContract, after_check_iff, validate_contract_iff, validate_range_iff,
}
use ne_enclave.Protocol.Replies.{
  LeaseHeader, validate_lease, validate_leases, carries_none, FleetPollResponse, has_leases,
  validate_response, FleetErrorCode, sequence_gap, rate_limited, unavailable, protocol_conflict,
  FleetErrorResponse, valid_guidance, validate_error,
}

pub record IsLease (h : LeaseHeader) : Type 0 where
  pub generation : 1 ≤ h.attempt_generation
  pub digest : length h.payload_digest ≡ 32
  pub contract : IsContract h.contract

pub record IsResponse (r : FleetPollResponse) : Type 0 where
  pub version : 1 ≤ r.protocol_version
  pub sequence : 1 ≤ r.accepted_sequence
  pub not_too_soon : 5_000 ≤ r.poll_after_ms
  pub not_too_late : r.poll_after_ms ≤ 60_000
  pub generation : 1 ≤ r.session.generation
  pub few_leases : length r.leases ≤ 16
  pub replay : (carries_none r.replay_status ≡ false) ⊎ (r.leases ≡ [])
  pub leases : All IsLease r.leases

validate_lease_iff : (h : LeaseHeader) → (validate_lease h ≡ ok tt) ↔ IsLease h
unfolding validate_lease
validate_lease_iff h = (
  λ v. record {
    generation = ground arith;
    digest = ground arith;
    contract = (validate_contract_iff h.contract).0 (ground arith);
  },
  λ l. ground (arith, l.generation, l.digest, (validate_contract_iff h.contract).1 l.contract),
)

validate_leases_iff : (l : List LeaseHeader) → (validate_leases l ≡ ok tt) ↔ All IsLease l
unfolding validate_leases
validate_leases_iff [] = ground arith
validate_leases_iff (h ∷ l) =
    let (there, back) = after_check_iff (validate_lease h) (validate_leases l) in
    (
      λ v. let (a, b) = there v in ((validate_lease_iff h).0 a, (validate_leases_iff l).0 b),
      λ p. back ((validate_lease_iff h).1 p.0, (validate_leases_iff l).1 p.1),
    )

replay_iff :
    (r : FleetPollResponse)
    → ((carries_none r.replay_status && has_leases r) ≡ false)
      ↔ ((carries_none r.replay_status ≡ false) ⊎ (r.leases ≡ []))
replay_iff r = ground arith

-- An answer to a poll is accepted exactly if its version and sequence are positive, the next poll is 5
-- to 60 seconds away, its session has a positive generation, and it has at most 16 leases, all of a
-- positive generation, with a digest of 32 bytes and a valid contract, and none where the replayed
-- receipt is obsolete or the runner is suspended.
pub validate_response_iff : (r : FleetPollResponse) → (validate_response r ≡ ok tt) ↔ IsResponse r
unfolding validate_response validate_session
validate_response_iff r = (
  λ v. record {
    version = ground arith;
    sequence = ground arith;
    not_too_soon = ground arith;
    not_too_late = ground arith;
    generation = ground arith;
    few_leases = ground arith;
    replay = (replay_iff r).0 (ground arith);
    leases = (validate_leases_iff r.leases).0 (ground arith);
  },
  λ v. ground (
    arith,
    v.version,
    v.sequence,
    v.not_too_soon,
    v.not_too_late,
    v.generation,
    v.few_leases,
    (replay_iff r).1 v.replay,
    (validate_leases_iff r.leases).1 v.leases,
  ),
)

-- A number above 0.
abbrev pub Given : Option ℕ → Type 0
Given o = (n : ℕ) × (o ≡ some n) × (1 ≤ n)

abbrev pub GivenRange : Option FleetProtocolRange → Type 0
GivenRange o =
    (p : FleetProtocolRange) × (o ≡ some p) × (1 ≤ p.min_version) × (p.min_version ≤ p.max_version)

-- What each code tells the client, and no more.
abbrev pub Guidance : FleetErrorCode → FleetErrorResponse → Type 0
Guidance sequence_gap e =
    Given e.expected_sequence × Given e.retry_after_ms × (e.supported_protocol ≡ none)
Guidance rate_limited e =
    (e.expected_sequence ≡ none) × Given e.retry_after_ms × (e.supported_protocol ≡ none)
Guidance unavailable e =
    (e.expected_sequence ≡ none) × Given e.retry_after_ms × (e.supported_protocol ≡ none)
Guidance protocol_conflict e =
    (e.expected_sequence ≡ none) × (e.retry_after_ms ≡ none) × GivenRange e.supported_protocol
Guidance _ e =
    (e.expected_sequence ≡ none) × (e.retry_after_ms ≡ none) × (e.supported_protocol ≡ none)

validate_error_by_parts :
    (code : FleetErrorCode) (sequence delay : Option ℕ) (protocol : Option FleetProtocolRange)
    → (validate_error (record {
      code = code;
      expected_sequence = sequence;
      retry_after_ms = delay;
      supported_protocol = protocol;
    })
        ≡ ok tt)
      ↔ Guidance code (record {
        code = code;
        expected_sequence = sequence;
        retry_after_ms = delay;
        supported_protocol = protocol;
      })
unfolding validate_error valid_guidance
validate_error_by_parts code sequence delay none = ground arith
validate_error_by_parts code sequence delay (some p) = ground (arith, validate_range_iff p)

-- An error is accepted exactly if it comes with the guidance of its code and no other: a gap in the
-- sequence with the next sequence and a delay, a rate limit or an unavailable server with a delay, a
-- protocol conflict with a range of versions that is not empty, and every other code with none;
-- sequences and delays are above 0.
pub validate_error_iff : (e : FleetErrorResponse) → (validate_error e ≡ ok tt) ↔ Guidance e.code e
validate_error_iff e =
    validate_error_by_parts e.code e.expected_sequence e.retry_after_ms e.supported_protocol
