-- ===== src/Audit/Log.antt =====
-- crates/ne-supervisor/src/audit.rs: the log that signs and appends events, lists them, and finds its
-- place again after a restart.
use ne_enclave.Common.{
  ℕ, ◌+◌, ◌-◌, ◌%◌, ◌^◌, Bool, true, false, ◌&&◌, not, String, Option, none, some, List, [], ◌∷◌,
  ◌++◌, Result, ok, err, length, leb, ltb, nat_eq, str_eq, min, take, if◌then◌else◌,
}
use ne_enclave.Audit.Event.{
  Bytes, EventType, AuditEvent, Externals, genesis_prev_hash, canonical_bytes,
}

pub data AuditError : Type 0 where
  io serde key time : AuditError

pub record ChainState : Type 0 where
  pub next_index : ℕ
  pub last_canonical : Option Bytes

pub record ListEventsRequest : Type 0 where
  pub workspace_id : Option String
  pub since_chain_index : ℕ
  pub limit : ℕ

-- What the log uses from outside: what serde_json reads from a line and writes to one, whether bytes
-- are UTF-8, the signing key that the log was opened with, and the append of bytes to the file: `none`
-- where `open`, `write_all` and `flush` succeed, and where one fails how many of the bytes got there.
pub record LogExternals (x : Externals) : Type 0 where
  pub from_line : Bytes → Option (AuditEvent x.Value)
  pub to_line : AuditEvent x.Value → Option Bytes
  pub is_utf8 : Bytes → Bool
  pub write_all : Bytes → Bytes → Option ℕ
  pub sign : Bytes → Bytes
  pub signer_pubkey_b64 : String

-- What an emission takes from outside: the clock, in milliseconds after the epoch if it is not before
-- it, and the new identifier.
pub record Now : Type 0 where
  pub millis : Option ℕ
  pub ulid : String

-- The lines of a file, as `read_line` returns them one after the other, each without its newline. The
-- last one may have none.
abbrev pub first_longer : ℕ → List Bytes → List Bytes
first_longer b [] = (b ∷ []) ∷ []
first_longer b (line ∷ lines) = (b ∷ line) ∷ lines

unfoldable pub read_lines : Bytes → List Bytes
read_lines [] = []
read_lines (b ∷ bs) =
    let rest = read_lines bs in if nat_eq b 10 then [] ∷ rest else first_longer b rest

module _ (x : Externals) (l : LogExternals x) where
  -- The log's place in the chain and its file. The lock is held from the read of the place to its
  -- write, so an emission is a function of both.
  pub record LogState : Type 0 where
    pub chain : ChainState
    pub file : Bytes

  abbrev pub prev_hash : Option Bytes → String
  prev_hash none = genesis_prev_hash
  prev_hash (some bytes) = x.sha256_hex bytes

  abbrev pub unsigned_event :
      EventType → Option String → x.Value → ℕ → String → ChainState → AuditEvent x.Value
  unsigned_event event_type workspace_id payload timestamp_ms ulid chain = record {
    event_id = ulid;
    timestamp_ms = timestamp_ms;
    event_type = event_type;
    workspace_id = workspace_id;
    payload = payload;
    chain_index = chain.next_index;
    prev_hash_hex = prev_hash chain.last_canonical;
    signature_b64 = "";
    signer_pubkey_b64 = l.signer_pubkey_b64;
  }

  abbrev pub signed_event : AuditEvent x.Value → Bytes → AuditEvent x.Value
  signed_event event to_sign = record event { signature_b64 = x.b64_encode (l.sign to_sign) }

  -- `saturating_add(1)` of a `u64`.
  abbrev pub saturating_next : ℕ → ℕ
  saturating_next i = min (i + 1) (2 ^ 64 - 1)

  -- The file is open for appending: what gets there of the bytes stands behind what the file held,
  -- also where that does not end with a newline.
  unfoldable pub append : Bytes → Bytes → Bool × Bytes
  append bytes file = elim (l.write_all bytes file) [
    | none ↦ (true, file ++ bytes)
    | some n ↦ (false, file ++ take n bytes)
  ]

  -- From the event that is to be signed on.
  unfoldable pub append_event : AuditEvent x.Value → LogState → Result AuditError ℕ × LogState
  unfolding append
  append_event event s = elim (canonical_bytes x event) [
    | none ↦ (err serde, s)
    | some to_sign ↦ elim (l.to_line (signed_event event to_sign)) [
      | none ↦ (err serde, s)
      | some line ↦
          if (append (line ++ 10 ∷ []) s.file).0
          then (
            ok s.chain.next_index,
            record {
              chain = record {
                next_index = saturating_next s.chain.next_index;
                last_canonical = some to_sign;
              };
              file = (append (line ++ 10 ∷ []) s.file).1;
            },
          )
          else (err io, record s { file = (append (line ++ 10 ∷ []) s.file).1 })
    ]
  ]

  unfoldable pub emit :
      Now → EventType → Option String → x.Value → LogState → Result AuditError ℕ × LogState
  unfolding append_event
  emit now event_type workspace_id payload s = elim now.millis [
    | none ↦ (err time, s)
    | some millis ↦
        append_event
          (unsigned_event event_type workspace_id payload (min millis (2 ^ 64 - 1)) now.ulid
            s.chain)
          s
  ]

  abbrev pub of_workspace : Option String → Option String → Bool
  of_workspace none id = true
  of_workspace (some wanted) none = false
  of_workspace (some wanted) (some id) = str_eq id wanted

  abbrev pub matches_request : ListEventsRequest → AuditEvent x.Value → Bool
  matches_request req event =
      not (ltb event.chain_index req.since_chain_index)
      && of_workspace req.workspace_id event.workspace_id

  abbrev pub effective_limit : ListEventsRequest → ℕ
  effective_limit req = if nat_eq req.limit 0 then 100 else req.limit

  -- The loop of `list`, with what is listed so far. `read_line` fails on a line that is not UTF-8.
  unfoldable pub list_from :
      ListEventsRequest
      → List Bytes
      → List (AuditEvent x.Value)
      → Result AuditError (List (AuditEvent x.Value))
  list_from req [] out = ok out
  list_from req (line ∷ lines) out = elim (l.is_utf8 line) [
    | false ↦ err io
    | true ↦ elim (l.from_line line) [
      | none ↦ list_from req lines out
      | some event ↦
          let listed = list_from req lines (out ++ event ∷ []) in
          if not (matches_request req event)
          then list_from req lines out
          else if leb (effective_limit req) (length (out ++ event ∷ []))
          then ok (out ++ event ∷ [])
          else listed
    ]
  ]

  -- A file that is not there has no lines.
  unfoldable pub list : ListEventsRequest → Bytes → Result AuditError (List (AuditEvent x.Value))
  unfolding list_from
  list req file = list_from req (read_lines file) []

  -- The loop of `recover_chain_head`.
  unfoldable pub recover_from : List Bytes → ChainState → Result AuditError ChainState
  recover_from [] chain = ok chain
  recover_from (line ∷ lines) chain = elim (l.is_utf8 line) [
    | false ↦ err io
    | true ↦ elim (l.from_line line) [
      | none ↦ recover_from lines chain
      | some event ↦ elim (canonical_bytes x event) [
        | none ↦ err serde
        | some canon ↦
            recover_from lines (record {
              next_index = (event.chain_index + 1) % 2 ^ 64;
              last_canonical = some canon;
            })
      ]
    ]
  ]

  unfoldable pub recover_chain_head : Bytes → Result AuditError ChainState
  unfolding recover_from
  recover_chain_head file =
      recover_from (read_lines file) (record { next_index = 0; last_canonical = none })
