-- ===== src/Audit/Acceptance.antt =====
-- The outcome of `verify_chain` of crates/ne-protocol/src/audit.rs: a chain, or its first break.
use ne_enclave.Common.{
  ◌≡◌, refl, ap, ◌↔◌, ◌⊎◌, inl, inr, true, false, String, Option, none, some, List, [], ◌∷◌, ok,
  err, arith, length, subst,
}
use ne_enclave.Audit.Event.{Bytes, AuditEvent, Externals, canonical_bytes}
use ne_enclave.Audit.Verify.{
  ChainErrorReason, ChainError, ChainVerification, check_event, verify_from, verify_chain, first,
  last, index_of,
}
use ne_enclave.Audit.Chain.{Good, IsChain, check_event-Good, Good-check_event, Result-cases}

module _ (x : Externals) where
  -- The digest of the last event, or `old` where there is none.
  abbrev pub root_of : Option String → List (AuditEvent x.Value) → Option String
  root_of old [] = old
  root_of old (e ∷ []) = elim (canonical_bytes x e) [
    | none ↦ none
    | some canon ↦ some (x.sha256_hex canon)
  ]
  root_of old (e ∷ f ∷ rest) = root_of old (f ∷ rest)

  -- The first event of `events` that is not good behind those before it, and why it is not.
  abbrev pub Breaks : Option (AuditEvent x.Value) → List (AuditEvent x.Value) → ChainError → Type 0
  Breaks prev [] error = ⊥
  Breaks prev (e ∷ rest) error =
      ((error.index ≡ e.chain_index)
        × (check_event x prev e ≡ err error.reason)
        × ((canon : Bytes) → ¬ Good x prev e canon))
      ⊎ (((canon : Bytes) × Good x prev e canon) × Breaks (some e) rest error)

  not-Good :
      (prev : Option (AuditEvent x.Value)) (e : AuditEvent x.Value) (reason : ChainErrorReason)
      → check_event x prev e ≡ err reason
      → (canon : Bytes) → ¬ Good x prev e canon
  not-Good prev e reason h canon g = ground (arith, Good-check_event x prev e canon g)

  -- What the loop does: all events are good, or one breaks the chain.
  abbrev pub Verified :
      Option (AuditEvent x.Value)
      → List (AuditEvent x.Value)
      → ChainVerification
      → ChainVerification
      → Type 0
  Verified prev events old new =
      (IsChain x prev events × (new ≡ record old { root_hex = root_of old.root_hex events }))
      ⊎ ((error : ChainError) × Breaks prev events error
          × (new ≡ record old { ok = false; first_error = some error }))

  module _ (prev : Option (AuditEvent x.Value)) (e : AuditEvent x.Value)
      (old : ChainVerification) where
    stops :
        (rest : List (AuditEvent x.Value)) (reason : ChainErrorReason)
        → check_event x prev e ≡ err reason
        → Verified prev (e ∷ rest) old (verify_from x prev (e ∷ rest) old)
    unfolding verify_from
    stops rest reason h = inr (
      record { index = e.chain_index; reason = reason },
      inl (refl, h, not-Good prev e reason h),
      rw (h, verify_from) refl,
    )

    ends :
        (canon : Bytes)
        → check_event x prev e ≡ ok canon
        → Verified prev (e ∷ []) old (verify_from x prev (e ∷ []) old)
    unfolding verify_from
    ends canon h =
        let good = check_event-Good x prev e canon h in
        inl (((canon, good), tt), rw (h, verify_from) (rw (good.0, root_of) refl))

    goes_on :
        (f : AuditEvent x.Value) (rest : List (AuditEvent x.Value)) (canon : Bytes)
        → check_event x prev e ≡ ok canon
        → Verified (some e) (f ∷ rest) old (verify_from x (some e) (f ∷ rest) old)
        → Verified prev (e ∷ f ∷ rest) old (verify_from x prev (e ∷ f ∷ rest) old)
    unfolding verify_from
    goes_on f rest canon h (inl (chain, r)) =
        inl (((canon, check_event-Good x prev e canon h), chain), rw (h, verify_from) r)
    goes_on f rest canon h (inr (error, breaks, r)) =
        inr (error, inr ((canon, check_event-Good x prev e canon h), breaks), rw (h, verify_from) r)

  verify_from-Verified :
      (prev : Option (AuditEvent x.Value)) (events : List (AuditEvent x.Value))
      (old : ChainVerification)
      → Verified prev events old (verify_from x prev events old)
  unfolding verify_from
  verify_from-Verified prev [] old = inl (tt, refl)
  verify_from-Verified prev (e ∷ []) old = elim (Result-cases x (check_event x prev e)) [
    | inl (canon, h) ↦ ends prev e old canon h
    | inr (reason, h) ↦ stops prev e old [] reason h
  ]
  verify_from-Verified prev (e ∷ f ∷ rest) old = elim (Result-cases x (check_event x prev e)) [
    | inl (canon, h) ↦
        goes_on prev e old f rest canon h (verify_from-Verified (some e) (f ∷ rest) old)
    | inr (reason, h) ↦ stops prev e old (f ∷ rest) reason h
  ]

  not_both :
      (prev : Option (AuditEvent x.Value)) (events : List (AuditEvent x.Value)) (error : ChainError)
      → IsChain x prev events
      → ¬ Breaks prev events error
  not_both prev [] error chain breaks = elim breaks [ ]
  not_both prev (e ∷ rest) error ((canon, good), chain) (inl (i, h, bad)) = bad canon good
  not_both prev (e ∷ rest) error ((canon, good), chain) (inr (g, breaks)) =
      not_both (some e) rest error chain breaks

  module _ (events : List (AuditEvent x.Value)) where
    abbrev start : ChainVerification
    start = record {
      ok = true;
      count = length events;
      first_index = index_of x (first events);
      last_index = index_of x (last events);
      root_hex = none;
      first_error = none;
    }

    verify_chain-Verified : Verified none events start (verify_chain x events)
    unfolding verify_chain
    verify_chain-Verified = verify_from-Verified none events start

    -- A list of events verifies exactly if it is a chain: every event has its canonical bytes, names a
    -- key of 32 bytes that is one, and carries a signature of 64 bytes of that key over those bytes;
    -- each event behind the first has the next index and the digest of the one before; and the first
    -- has the all-zero digest if its index is 0.
    pub verify_chain-ok_iff : ((verify_chain x events).ok ≡ true) ↔ IsChain x none events
    verify_chain-ok_iff = elim verify_chain-Verified [
      | inl (chain, r) ↦ (λ h. chain, λ c. ap (λ (v : ChainVerification). v.ok) r)
      | inr (error, breaks, r) ↦ (
        λ h. absurd (ground (arith, ap (λ (v : ChainVerification). v.ok) r)),
        λ c. absurd (not_both none events error c breaks),
      )
    ]

    -- If verification reports an error, the events before the one that it names are good, the named
    -- one is not, the reason is that event's, and the result is marked as failed and has no root.
    pub verify_chain-Breaks :
        (error : ChainError)
        → (verify_chain x events).first_error ≡ some error
        → Breaks none events error
          × ((verify_chain x events).ok ≡ false)
          × ((verify_chain x events).root_hex ≡ none)
    verify_chain-Breaks error h = elim verify_chain-Verified [
      | inl (chain, r) ↦ absurd (ground (arith, ap (λ (v : ChainVerification). v.first_error) r))
      | inr (found, breaks, r) ↦
          let same : found ≡ error =
            ground (arith, ap (λ (v : ChainVerification). v.first_error) r) in
          (
            subst (Breaks none events) same breaks,
            ap (λ (v : ChainVerification). v.ok) r,
            ap (λ (v : ChainVerification). v.root_hex) r,
          )
    ]

    -- A list that verifies is reported with its length, its first and its last index, the digest of
    -- its last event and no error.
    pub verify_chain-root :
        (verify_chain x events).ok ≡ true
        → verify_chain x events ≡ record start { root_hex = root_of none events }
    verify_chain-root h = elim verify_chain-Verified [
      | inl (chain, r) ↦ r
      | inr (error, breaks, r) ↦ absurd (ground (arith, ap (λ (v : ChainVerification). v.ok) r))
    ]
