-- ===== src/Audit/Chain.antt =====
-- What `verify_chain` of crates/ne-protocol/src/audit.rs accepts, and where it stops.
use ne_enclave.Common.{
  ◌+◌, ◌^◌, ◌≤◌, ◌<◌, ◌≡◌, refl, ap, ◌∙◌, ◌⊎◌, inl, inr, true, Option, none, some, List, [], ◌∷◌,
  Result, ok, err, length, arith, eq_iff, Option-cases, subst,
}
use ne_enclave.Audit.Event.{Bytes, AuditEvent, Externals, genesis_prev_hash, canonical_bytes}
use ne_enclave.Audit.Verify.{ChainErrorReason, check_signature, check_link, check_event}

module _ (x : Externals) where
  -- The signature of `e` is the key's that it names, over `canon`.
  pub record SignedAs (canon : Bytes) (e : AuditEvent x.Value) : Type 0 where
    pub pk : Bytes
    pub sig : Bytes
    pub vk : x.VerifyingKey
    pub pubkey : x.b64_decode e.signer_pubkey_b64 ≡ some pk
    pub pubkey_length : length pk ≡ 32
    pub key : x.from_bytes pk ≡ some vk
    pub signature : x.b64_decode e.signature_b64 ≡ some sig
    pub signature_length : length sig ≡ 64
    pub verifies : x.verify_strict vk canon sig ≡ true

  -- `e` may stand behind `prev`, or first where there is none.
  abbrev pub Follows : Option (AuditEvent x.Value) → AuditEvent x.Value → Type 0
  Follows none e =
      ((e.chain_index ≡ 0) × (e.prev_hash_hex ≡ genesis_prev_hash)) ⊎ (1 ≤ e.chain_index)
  Follows (some p) e =
      (e.chain_index ≡ p.chain_index + 1)
      × (e.chain_index < 2 ^ 64)
      × ((canon : Bytes) × (canonical_bytes x p ≡ some canon)
          × (e.prev_hash_hex ≡ x.sha256_hex canon))

  abbrev pub Good : Option (AuditEvent x.Value) → AuditEvent x.Value → Bytes → Type 0
  Good prev e canon = (canonical_bytes x e ≡ some canon) × SignedAs canon e × Follows prev e

  abbrev pub IsChain : Option (AuditEvent x.Value) → List (AuditEvent x.Value) → Type 0
  IsChain prev [] = Unit
  IsChain prev (e ∷ rest) = ((canon : Bytes) × Good prev e canon) × IsChain (some e) rest

  check_signature-SignedAs :
      (canon : Bytes) (e : AuditEvent x.Value) → check_signature x canon e ≡ none → SignedAs canon e
  unfolding check_signature
  check_signature-SignedAs canon e h = elim (Option-cases (x.b64_decode e.signer_pubkey_b64)) [
    | inl a ↦ ground arith
    | inr (pk, a) ↦ elim (Option-cases (x.from_bytes pk)) [
      | inl b ↦ ground arith
      | inr (vk, b) ↦ elim (Option-cases (x.b64_decode e.signature_b64)) [
        | inl c ↦ ground arith
        | inr (sig, c) ↦ record {
          pk = pk;
          sig = sig;
          vk = vk;
          pubkey = a;
          pubkey_length = ground arith;
          key = b;
          signature = c;
          signature_length = ground arith;
          verifies = ground arith;
        }
      ]
    ]
  ]

  SignedAs-check_signature :
      (canon : Bytes) (e : AuditEvent x.Value) → SignedAs canon e → check_signature x canon e ≡ none
  unfolding check_signature
  SignedAs-check_signature canon e s =
      ground (arith, s.pubkey, s.pubkey_length, s.key, s.signature, s.signature_length, s.verifies)

  check_link-Follows :
      (prev : Option (AuditEvent x.Value)) (e : AuditEvent x.Value)
      → check_link x prev e ≡ none
      → Follows prev e
  unfolding check_link
  check_link-Follows none e h = ground (arith, eq_iff e.prev_hash_hex genesis_prev_hash)
  check_link-Follows (some p) e h = elim (Option-cases (canonical_bytes x p)) [
    | inl a ↦ ground arith
    | inr (canon, a) ↦ (
      ground arith,
      ground arith,
      (canon, a, ground (arith, eq_iff e.prev_hash_hex (x.sha256_hex canon))),
    )
  ]

  Follows-check_link :
      (prev : Option (AuditEvent x.Value)) (e : AuditEvent x.Value)
      → Follows prev e
      → check_link x prev e ≡ none
  unfolding check_link
  Follows-check_link none e h = ground (arith, eq_iff e.prev_hash_hex genesis_prev_hash)
  Follows-check_link (some p) e (i, b, (canon, c, d)) =
      ground (arith, eq_iff e.prev_hash_hex (x.sha256_hex canon))

  -- The checks of one event pass exactly for a good one.
  pub check_event-Good :
      (prev : Option (AuditEvent x.Value)) (e : AuditEvent x.Value) (canon : Bytes)
      → check_event x prev e ≡ ok canon
      → Good prev e canon
  unfolding check_event
  check_event-Good prev e canon h = elim (Option-cases (canonical_bytes x e)) [
    | inl a ↦ ground arith
    | inr (c, a) ↦ elim (Option-cases (check_signature x c e)) [
      | inr (r, b) ↦ ground arith
      | inl b ↦ elim (Option-cases (check_link x prev e)) [
        | inr (r, d) ↦ ground arith
        | inl d ↦
            let same : c ≡ canon = ground arith in
            (
              a ∙ ap some same,
              check_signature-SignedAs canon e (subst (λ k. check_signature x k e ≡ none) same b),
              check_link-Follows prev e d,
            )
      ]
    ]
  ]

  pub Good-check_event :
      (prev : Option (AuditEvent x.Value)) (e : AuditEvent x.Value) (canon : Bytes)
      → Good prev e canon
      → check_event x prev e ≡ ok canon
  unfolding check_event
  Good-check_event prev e canon (a, s, f) =
      ground (arith, SignedAs-check_signature canon e s, Follows-check_link prev e f)

  pub Result-cases :
      (r : Result ChainErrorReason Bytes)
      → ((c : Bytes) × (r ≡ ok c)) ⊎ ((e : ChainErrorReason) × (r ≡ err e))
  Result-cases (ok c) = inl (c, refl)
  Result-cases (err e) = inr (e, refl)
