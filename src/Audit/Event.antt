-- ===== src/Audit/Event.antt =====
-- crates/ne-protocol/src/audit.rs: an event of the audit log, and the bytes of it that are signed.
use ne_enclave.Common.{ℕ, Bool, String, string_eq, Option, none, some, List, [], ◌∷◌}
use ne_enclave.Map.{Map, insert, remove}

abbrev pub Bytes : Type 0
Bytes = List ℕ

pub data EventType : Type 0 where
  workspace_created workspace_terminated command_executed : EventType
  command_failed network_setup network_teardown : EventType
  dns_allowed dns_denied dns_malformed : EventType
  privacy_audited privacy_redacted privacy_blocked : EventType
  privacy_allowed file_written file_read : EventType
  file_op_failed workspace_paused workspace_resumed : EventType
  snapshot_created workspace_restored workspace_forked : EventType
  snapshot_failed pool_member_provisioned pool_hit : EventType
  pool_miss pool_member_evicted ingress_route_allowed : EventType
  ingress_route_denied ingress_port_exposed ingress_port_unexposed : EventType
  attestation_evidence_issued attestation_failed attestation_replayed : EventType

-- The name that `rename_all = "snake_case"` gives.
abbrev pub event_name : EventType → String
event_name workspace_created = "workspace_created"
event_name workspace_terminated = "workspace_terminated"
event_name command_executed = "command_executed"
event_name command_failed = "command_failed"
event_name network_setup = "network_setup"
event_name network_teardown = "network_teardown"
event_name dns_allowed = "dns_allowed"
event_name dns_denied = "dns_denied"
event_name dns_malformed = "dns_malformed"
event_name privacy_audited = "privacy_audited"
event_name privacy_redacted = "privacy_redacted"
event_name privacy_blocked = "privacy_blocked"
event_name privacy_allowed = "privacy_allowed"
event_name file_written = "file_written"
event_name file_read = "file_read"
event_name file_op_failed = "file_op_failed"
event_name workspace_paused = "workspace_paused"
event_name workspace_resumed = "workspace_resumed"
event_name snapshot_created = "snapshot_created"
event_name workspace_restored = "workspace_restored"
event_name workspace_forked = "workspace_forked"
event_name snapshot_failed = "snapshot_failed"
event_name pool_member_provisioned = "pool_member_provisioned"
event_name pool_hit = "pool_hit"
event_name pool_miss = "pool_miss"
event_name pool_member_evicted = "pool_member_evicted"
event_name ingress_route_allowed = "ingress_route_allowed"
event_name ingress_route_denied = "ingress_route_denied"
event_name ingress_port_exposed = "ingress_port_exposed"
event_name ingress_port_unexposed = "ingress_port_unexposed"
event_name attestation_evidence_issued = "attestation_evidence_issued"
event_name attestation_failed = "attestation_failed"
event_name attestation_replayed = "attestation_replayed"

-- An event whose payload is a `serde_json::Value`.
pub record AuditEvent (Value : Type 0) : Type 0 where
  pub event_id : String
  pub timestamp_ms : ℕ
  pub event_type : EventType
  pub workspace_id : Option String
  pub payload : Value
  pub chain_index : ℕ
  pub prev_hash_hex : String
  pub signature_b64 : String
  pub signer_pubkey_b64 : String

-- What the audit code uses of the crates serde_json, sha2 with hex, base64 and ed25519_dalek.
pub record Externals : Type 1 where
  pub Value : Type 0
  pub null : Value
  pub string : String → Value
  pub number : ℕ → Value
  pub to_vec : Map String Value → Option Bytes
  pub sha256_hex : Bytes → String
  pub b64_decode : String → Option Bytes
  pub b64_encode : Bytes → String
  pub VerifyingKey : Type 0
  pub from_bytes : Bytes → Option VerifyingKey
  pub verify_strict : VerifyingKey → Bytes → Bytes → Bool

abbrev pub genesis_prev_hash : String
genesis_prev_hash = "0000000000000000000000000000000000000000000000000000000000000000"

abbrev pub audit_domain_tag : String
audit_domain_tag = "ne-enclave-audit-v1"

module _ (x : Externals) where
  -- `serde_json::to_value` of an event: the object of its fields.
  abbrev pub to_value : AuditEvent x.Value → Map String x.Value
  to_value event =
      ("event_id", x.string event.event_id)
      ∷ ("timestamp_ms", x.number event.timestamp_ms)
      ∷ ("event_type", x.string (event_name event.event_type))
      ∷ ("workspace_id", elim event.workspace_id [ none ↦ x.null | some id ↦ x.string id ])
      ∷ ("payload", event.payload)
      ∷ ("chain_index", x.number event.chain_index)
      ∷ ("prev_hash_hex", x.string event.prev_hash_hex)
      ∷ ("signature_b64", x.string event.signature_b64)
      ∷ ("signer_pubkey_b64", x.string event.signer_pubkey_b64)
      ∷ []

  -- The members that are signed: all but the signature, and the domain tag.
  unfoldable pub signed_object : AuditEvent x.Value → Map String x.Value
  signed_object event =
      insert "ctx" (x.string audit_domain_tag) (remove "signature_b64" (to_value event))

  unfoldable pub canonical_bytes : AuditEvent x.Value → Option Bytes
  canonical_bytes event = x.to_vec (signed_object event)
