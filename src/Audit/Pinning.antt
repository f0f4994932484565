-- ===== src/Audit/Pinning.antt =====
-- Two exports of crates/ne-protocol/src/audit.rs with one pinned root.
use ne_enclave.Common.{
  ℕ, ◌≡◌, refl, sym, ap, ◌∙◌, String, string_eq, Option, none, some, List, [], ◌∷◌, arith, true,
}
use ne_enclave.Map.{lookup, insert, remove}
use ne_enclave.Audit.Event.{Bytes, AuditEvent, Externals, canonical_bytes, signed_object}
use ne_enclave.Audit.Verify.{verify_chain, ChainVerification}
use ne_enclave.Audit.Chain.{IsChain, Follows}
use ne_enclave.Audit.Acceptance.{root_of, verify_chain-ok_iff, verify_chain-root}

-- What serde_json promises of a string and of a number: it keeps them.
pub record KeepsScalars (x : Externals) : Type 0 where
  pub text : (s t : String) → x.string s ≡ x.string t → s ≡ t
  pub numeral : (m n : ℕ) → x.number m ≡ x.number n → m ≡ n

module _ (x : Externals) where
  -- The two events are no collision: equal digests come from equal bytes, and equal JSON texts from
  -- equal members.
  pub record NoClash (e f : AuditEvent x.Value) : Type 0 where
    pub digest :
        (c d : Bytes)
        → canonical_bytes x e ≡ some c
        → canonical_bytes x f ≡ some d
        → x.sha256_hex c ≡ x.sha256_hex d
        → c ≡ d
    pub object :
        (b : Bytes)
        → canonical_bytes x e ≡ some b
        → canonical_bytes x f ≡ some b
        → (key : String) → lookup key (signed_object x e) ≡ lookup key (signed_object x f)

  -- Two events have the same id, time, payload, index, link and key.
  pub record SameContent (e f : AuditEvent x.Value) : Type 0 where
    pub event_id : e.event_id ≡ f.event_id
    pub timestamp_ms : e.timestamp_ms ≡ f.timestamp_ms
    pub payload : e.payload ≡ f.payload
    pub chain_index : e.chain_index ≡ f.chain_index
    pub prev_hash_hex : e.prev_hash_hex ≡ f.prev_hash_hex
    pub signer_pubkey_b64 : e.signer_pubkey_b64 ≡ f.signer_pubkey_b64

  -- A relation at each position of two lists, which have one length.
  abbrev pub Pointwise :
      (AuditEvent x.Value → AuditEvent x.Value → Type 0)
      → List (AuditEvent x.Value)
      → List (AuditEvent x.Value)
      → Type 0
  Pointwise R [] [] = Unit
  Pointwise R (e ∷ es) (f ∷ fs) = R e f × Pointwise R es fs
  Pointwise R _ _ = ⊥

  some_injective : {A : Type 0} {a b : A} → some a ≡ some b → a ≡ b
  some_injective h = ground (arith, h)

  module _ (v : KeepsScalars x) where
    digest-SameContent :
        (e f : AuditEvent x.Value) (c d : Bytes)
        → NoClash e f
        → canonical_bytes x e ≡ some c
        → canonical_bytes x f ≡ some d
        → x.sha256_hex c ≡ x.sha256_hex d
        → SameContent e f
    unfolding signed_object lookup insert remove
    digest-SameContent e f c d n h k same =
        let member = n.object c h (k ∙ ap some (sym (n.digest c d h k same))) in
        record {
          event_id = v.text _ _ (some_injective (member "event_id"));
          timestamp_ms = v.numeral _ _ (some_injective (member "timestamp_ms"));
          payload = some_injective (member "payload");
          chain_index = v.numeral _ _ (some_injective (member "chain_index"));
          prev_hash_hex = v.text _ _ (some_injective (member "prev_hash_hex"));
          signer_pubkey_b64 = v.text _ _ (some_injective (member "signer_pubkey_b64"));
        }

    root_of_one :
        (e : AuditEvent x.Value) (c : Bytes)
        → canonical_bytes x e ≡ some c
        → root_of x none (e ∷ []) ≡ some (x.sha256_hex c)
    root_of_one e c h = rw (h, root_of) refl

    -- The event behind says what the digest of this one is.
    linked-SameContent :
        (e f g h : AuditEvent x.Value)
        → NoClash e f
        → Follows x (some e) g
        → Follows x (some f) h
        → SameContent g h
        → SameContent e f
    linked-SameContent e f g h n (i, b, (c, k, l)) (i', b', (d, k', l')) same =
        digest-SameContent e f c d n k k' (sym l ∙ same.prev_hash_hex ∙ l')

    chains-SameContent :
        (prev prev' : Option (AuditEvent x.Value)) (es fs : List (AuditEvent x.Value))
        → Pointwise NoClash es fs
        → IsChain x prev es
        → IsChain x prev' fs
        → root_of x none es ≡ root_of x none fs
        → Pointwise SameContent es fs
    chains-SameContent prev prev' [] [] n c d root = tt
    chains-SameContent prev prev' [] (f ∷ fs) n c d root = elim n [ ]
    chains-SameContent prev prev' (e ∷ es) [] n c d root = elim n [ ]
    chains-SameContent prev prev' (e ∷ []) (f ∷ []) n ((b, (k, s, l)), c) ((b', (k', s', l')), d)
          root =
        (
          digest-SameContent e f b b' n.0 k k'
              (some_injective (sym (root_of_one e b k) ∙ root ∙ root_of_one f b' k')),
          tt,
        )
    chains-SameContent prev prev' (e ∷ []) (f ∷ h ∷ fs) n c d root = elim n.1 [ ]
    chains-SameContent prev prev' (e ∷ g ∷ es) (f ∷ []) n c d root = elim n.1 [ ]
    chains-SameContent prev prev' (e ∷ g ∷ es) (f ∷ h ∷ fs) n c d root =
        let rest = chains-SameContent (some e) (some f) (g ∷ es) (h ∷ fs) n.1 c.1 d.1 root in
        (linked-SameContent e f g h n.0 c.1.0.1.2 d.1.0.1.2 rest.0, rest)

    -- Where JSON keeps strings and numbers: if two exports of one length both verify and report one
    -- root, and no two events in the same position are a collision, then the events agree position by
    -- position in their id, time, payload, index, link and key.
    pub verify_chain-SameContent :
        (es fs : List (AuditEvent x.Value))
        → Pointwise NoClash es fs
        → (verify_chain x es).ok ≡ true
        → (verify_chain x fs).ok ≡ true
        → (verify_chain x es).root_hex ≡ (verify_chain x fs).root_hex
        → Pointwise SameContent es fs
    verify_chain-SameContent es fs n p q root =
        chains-SameContent none none es fs n ((verify_chain-ok_iff x es).0 p)
          ((verify_chain-ok_iff x fs).0 q)
          (sym (ap (λ (r : ChainVerification). r.root_hex) (verify_chain-root x es p))
            ∙ root
            ∙ ap (λ (r : ChainVerification). r.root_hex) (verify_chain-root x fs q))
