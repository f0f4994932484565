-- ===== src/Audit/Verify.antt =====
-- crates/ne-protocol/src/audit.rs: `verify_chain`.
use ne_enclave.Common.{
  ℕ, ◌^◌, Bool, true, false, ◌&&◌, not, String, Option, none, some, List, [], ◌∷◌, Result, ok, err,
  length, nat_eq, checked_add, str_eq, if◌then◌else◌,
}
use ne_enclave.Audit.Event.{Bytes, AuditEvent, Externals, genesis_prev_hash, canonical_bytes}

pub data ChainErrorReason : Type 0 where
  bad_signature broken_link non_sequential_index : ChainErrorReason
  malformed_pubkey malformed_signature : ChainErrorReason

pub record ChainError : Type 0 where
  pub index : ℕ
  pub reason : ChainErrorReason

pub record ChainVerification : Type 0 where
  pub ok : Bool
  pub count : ℕ
  pub first_index : Option ℕ
  pub last_index : Option ℕ
  pub root_hex : Option String
  pub first_error : Option ChainError

abbrev pub first : {A : Type 0} → List A → Option A
first [] = none
first (a ∷ l) = some a

abbrev pub last : {A : Type 0} → List A → Option A
last [] = none
last (a ∷ []) = some a
last (a ∷ b ∷ l) = last (b ∷ l)

module _ (x : Externals) where
  -- Steps 2 to 4 of the loop's body: the signature over the canonical bytes.
  unfoldable pub check_signature : Bytes → AuditEvent x.Value → Option ChainErrorReason
  check_signature canon e = elim (x.b64_decode e.signer_pubkey_b64) [
    | none ↦ some malformed_pubkey
    | some pk ↦
        if not (nat_eq (length pk) 32) then some malformed_pubkey else elim (x.from_bytes pk) [
          | none ↦ some malformed_pubkey
          | some vk ↦ elim (x.b64_decode e.signature_b64) [
            | none ↦ some malformed_signature
            | some sig ↦
                if not (nat_eq (length sig) 64)
                then some malformed_signature
                else if x.verify_strict vk canon sig
                then none
                else some bad_signature
          ]
        ]
  ]

  -- Step 5: the link to the event before.
  unfoldable pub check_link :
      Option (AuditEvent x.Value) → AuditEvent x.Value → Option ChainErrorReason
  check_link none e =
      if nat_eq e.chain_index 0 && not (str_eq e.prev_hash_hex genesis_prev_hash)
      then some broken_link
      else none
  check_link (some p) e = elim (checked_add (2 ^ 64) p.chain_index 1) [
    | none ↦ some non_sequential_index
    | some expected ↦
        if not (nat_eq expected e.chain_index)
        then some non_sequential_index
        else elim (canonical_bytes x p) [
          | none ↦ some broken_link
          | some prev_canon ↦
              if str_eq e.prev_hash_hex (x.sha256_hex prev_canon) then none else some broken_link
        ]
  ]

  -- The body up to the link: an error, or the canonical bytes.
  unfoldable pub check_event :
      Option (AuditEvent x.Value) → AuditEvent x.Value → Result ChainErrorReason Bytes
  unfolding check_signature check_link
  check_event prev e = elim (canonical_bytes x e) [
    | none ↦ err bad_signature
    | some canon ↦ elim (check_signature canon e) [
      | some reason ↦ err reason
      | none ↦ elim (check_link prev e) [ some reason ↦ err reason | none ↦ ok canon ]
    ]
  ]

  abbrev pub failed_at :
      AuditEvent x.Value → ChainErrorReason → ChainVerification → ChainVerification
  failed_at e reason result = record result {
    ok = false;
    first_error = some (record { index = e.chain_index; reason = reason });
  }

  -- Step 6: the root is the digest of the last event.
  abbrev pub set_root : List (AuditEvent x.Value) → Bytes → ChainVerification → ChainVerification
  set_root [] canon result = record result { root_hex = some (x.sha256_hex canon) }
  set_root (e ∷ rest) canon result = result

  -- The loop, behind `prev`.
  unfoldable pub verify_from :
      Option (AuditEvent x.Value)
      → List (AuditEvent x.Value)
      → ChainVerification
      → ChainVerification
  verify_from prev [] result = result
  verify_from prev (e ∷ rest) result = elim (check_event prev e) [
    | err reason ↦ failed_at e reason result
    | ok canon ↦ verify_from (some e) rest (set_root rest canon result)
  ]

  abbrev pub index_of : Option (AuditEvent x.Value) → Option ℕ
  index_of none = none
  index_of (some e) = some e.chain_index

  unfoldable pub verify_chain : List (AuditEvent x.Value) → ChainVerification
  unfolding verify_from
  verify_chain events = verify_from none events (record {
    ok = true;
    count = length events;
    first_index = index_of (first events);
    last_index = index_of (last events);
    root_hex = none;
    first_error = none;
  })
