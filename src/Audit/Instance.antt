-- ===== src/Audit/Instance.antt =====
-- A small instance of what the code of crates/ne-supervisor/src/audit.rs and
-- crates/ne-protocol/src/audit.rs relies on: a signature tells whether the signed bytes start with 0.
use ne_enclave.Common.{
  ℕ, zero, suc, ◌≡◌, refl, Bool, true, false, String, string_eq, ◌==◌, Option, none, some, [], ◌∷◌,
  arith, length, if◌then◌else◌, nat_eq, str_eq, eq_iff, ◌&&◌, subst, sym,
}
use ne_enclave.Map.{lookup}
use ne_enclave.Text.{same_text, same_text_iff}
use ne_enclave.Audit.Event.{
  Bytes, EventType, workspace_created, AuditEvent, Externals, genesis_prev_hash,
}
use ne_enclave.Audit.Log.{LogExternals}
use ne_enclave.Audit.Lines.{NoNewline}
use ne_enclave.Audit.Appending.{Honest}

pub data Json : Type 0 where
  null : Json
  text : String → Json
  numeral : ℕ → Json

abbrev pub repeat : ℕ → ℕ → Bytes
repeat zero b = []
repeat (suc n) b = b ∷ repeat n b

-- The members of an object that its bytes hold: the index.
abbrev pub index_bytes : Option Json → Option Bytes
index_bytes (some (numeral n)) = some (n ∷ [])
index_bytes _ = none

abbrev pub starts_at_zero : Bytes → Bool
starts_at_zero [] = false
starts_at_zero (b ∷ bs) = nat_eq b 0

-- A signature tells whether the signed bytes start with 0.
abbrev pub toy_sign : Bytes → Bytes
toy_sign m = if starts_at_zero m then repeat 64 0 else repeat 64 1

abbrev pub toy_decode : String → Option Bytes
toy_decode s =
    if s == "key"
    then some (repeat 32 7)
    else if s == "zeros"
    then some (repeat 64 0)
    else if s == "zeros="
    then some (repeat 64 0)
    else if s == "ones"
    then some (repeat 64 1)
    else none

abbrev pub toy : Externals
toy = record {
  Value = Json;
  null = null;
  string = text;
  number = numeral;
  to_vec = λ m. index_bytes (lookup "chain_index" m);
  sha256_hex = λ m. if starts_at_zero m then "first" else "later";
  b64_decode = toy_decode;
  b64_encode = λ b. if starts_at_zero b then "zeros" else "ones";
  VerifyingKey = Bytes;
  from_bytes = some;
  verify_strict = λ key m sig. same_text sig (toy_sign m);
}

-- The one event that the log can write: the first, about the workspace `a`.
abbrev pub toy_event : AuditEvent Json
toy_event = record {
  event_id = "01";
  timestamp_ms = 12;
  event_type = workspace_created;
  workspace_id = some "a";
  payload = null;
  chain_index = 0;
  prev_hash_hex = genesis_prev_hash;
  signature_b64 = "zeros";
  signer_pubkey_b64 = "key";
}

abbrev is_created : EventType → Bool
is_created workspace_created = true
is_created _ = false

abbrev is_a : Option String → Bool
is_a (some id) = str_eq id "a"
is_a none = false

abbrev is_null : Json → Bool
is_null null = true
is_null _ = false

-- It is written as the line 1.
unfoldable pub toy_line : AuditEvent Json → Option Bytes
toy_line e =
    if str_eq e.event_id "01"
      && nat_eq e.timestamp_ms 12
      && is_created e.event_type
      && is_a e.workspace_id
      && is_null e.payload
      && nat_eq e.chain_index 0
      && str_eq e.prev_hash_hex genesis_prev_hash
      && str_eq e.signature_b64 "zeros"
      && str_eq e.signer_pubkey_b64 "key"
    then some (1 ∷ [])
    else none

unfoldable pub read_line : Bytes → Option (AuditEvent Json)
read_line [] = none
read_line (b ∷ []) = if nat_eq b 1 then some toy_event else none
read_line (b ∷ c ∷ bs) = none

abbrev pub toy_log : LogExternals toy
toy_log = record {
  from_line = read_line;
  to_line = toy_line;
  is_utf8 = λ line. true;
  write_all = λ bytes file. none;
  sign = toy_sign;
  signer_pubkey_b64 = "key";
}

is_created_lem : (t : EventType) → is_created t ≡ true → t ≡ workspace_created
is_created_lem t h = ground arith

is_a_lem : (o : Option String) → is_a o ≡ true → o ≡ some "a"
is_a_lem none h = ground arith
is_a_lem (some id) h = ground (arith, eq_iff id "a")

is_null_lem : (j : Json) → is_null j ≡ true → j ≡ null
is_null_lem j h = ground arith

toy_line_iff : (e : AuditEvent Json) (line : Bytes) → toy_line e ≡ some line → e ≡ toy_event
unfolding toy_line
toy_line_iff e line h = ground (
  arith,
  eq_iff e.event_id "01",
  is_created_lem e.event_type,
  is_a_lem e.workspace_id,
  is_null_lem e.payload,
  eq_iff e.prev_hash_hex genesis_prev_hash,
  eq_iff e.signature_b64 "zeros",
  eq_iff e.signer_pubkey_b64 "key",
)

toy_line-is_one : (e : AuditEvent Json) (line : Bytes) → toy_line e ≡ some line → line ≡ 1 ∷ []
unfolding toy_line
toy_line-is_one e line h = ground arith

toy_reads : (e : AuditEvent Json) (line : Bytes) → toy_line e ≡ some line → read_line line ≡ some e
unfolding read_line
toy_reads e line h = rw (toy_line-is_one e line h, read_line) (rw (toy_line_iff e line h) refl)

toy_decodes :
    (b : Bool)
    → toy_decode
        (if starts_at_zero (if b then repeat 64 0 else repeat 64 1) then "zeros" else "ones")
      ≡ some (if b then repeat 64 0 else repeat 64 1)
toy_decodes true = refl
toy_decodes false = refl

toy_length : (b : Bool) → length (if b then repeat 64 0 else repeat 64 1) ≡ 64
toy_length true = refl
toy_length false = refl

pub toy-Honest : Honest toy toy_log
toy-Honest = record {
  reads = toy_reads;
  one_line = λ e line h. subst NoNewline (sym (toy_line-is_one e line h)) (refl, tt);
  utf8 = λ e line h. refl;
  decodes = λ m. toy_decodes (starts_at_zero m);
  pk = repeat 32 7;
  vk = repeat 32 7;
  pubkey = refl;
  pubkey_length = refl;
  key = refl;
  signature_length = λ m. toy_length (starts_at_zero m);
  verifies = λ m. (same_text_iff (toy_sign m) (toy_sign m)).1 refl;
}
