-- ===== src/Audit/Appending.antt =====
-- What an append leaves of the log of crates/ne-supervisor/src/audit.rs.
use mathlib.Core.List.{append_assoc}
use ne_enclave.Common.{
  All, ◌+◌, ◌^◌, ◌<◌, ◌≡◌, refl, sym, ap, ◌∙◌, inl, inr, true, Option, none, some, List, [], ◌∷◌,
  ◌++◌, ok, arith, length, Option-cases, subst,
}
use ne_enclave.Map.{insert, remove}
use ne_enclave.Audit.Event.{Bytes, AuditEvent, Externals, canonical_bytes, signed_object}
use ne_enclave.Audit.Chain.{SignedAs, Follows, Good, IsChain}
use ne_enclave.Audit.Log.{
  ChainState, LogExternals, LogState, prev_hash, signed_event, append_event, saturating_next,
  append, read_lines,
}
use ne_enclave.Audit.Lines.{
  IsTerminated, NoNewline, read_lines-append, read_lines-line, append-IsTerminated,
}

-- What the log relies on: serde_json writes an event as one line of UTF-8, which reads back as the
-- event, and a signature verifies under the key that the events name.
pub record Honest (x : Externals) (l : LogExternals x) : Type 0 where
  pub reads :
      (e : AuditEvent x.Value) (line : Bytes) → l.to_line e ≡ some line → l.from_line line ≡ some e
  pub one_line : (e : AuditEvent x.Value) (line : Bytes) → l.to_line e ≡ some line → NoNewline line
  pub utf8 :
      (e : AuditEvent x.Value) (line : Bytes) → l.to_line e ≡ some line → l.is_utf8 line ≡ true
  pub decodes : (m : Bytes) → x.b64_decode (x.b64_encode (l.sign m)) ≡ some (l.sign m)
  pub pk : Bytes
  pub vk : x.VerifyingKey
  pub pubkey : x.b64_decode l.signer_pubkey_b64 ≡ some pk
  pub pubkey_length : length pk ≡ 32
  pub key : x.from_bytes pk ≡ some vk
  pub signature_length : (m : Bytes) → length (l.sign m) ≡ 64
  pub verifies : (m : Bytes) → x.verify_strict vk m (l.sign m) ≡ true

module _ (x : Externals) (l : LogExternals x) where
  abbrev pub Event : Type 0
  Event = AuditEvent x.Value

  -- The events in the lines of a file; lines that are none are skipped.
  abbrev pub events_of : List Bytes → List Event
  events_of [] = []
  events_of (line ∷ lines) = elim (l.from_line line) [
    | none ↦ events_of lines
    | some e ↦ e ∷ events_of lines
  ]

  abbrev pub last_or : Option Event → List Event → Option Event
  last_or prev [] = prev
  last_or prev (e ∷ es) = last_or (some e) es

  -- The place behind an event.
  abbrev pub head_of : Option Event → ChainState
  head_of none = record { next_index = 0; last_canonical = none }
  head_of (some e) = record { next_index = e.chain_index + 1; last_canonical = canonical_bytes x e }

  abbrev pub Readable : Bytes → Type 0
  Readable file = All (λ line. l.is_utf8 line ≡ true) (read_lines file)

  -- The file is text, its events are a chain, and the log stands behind the last of them. Lines that
  -- are no events may stand between them, and the last line may be torn.
  pub record Sound (s : LogState x l) : Type 0 where
    pub readable : Readable s.file
    pub chain : IsChain x none (events_of (read_lines s.file))
    pub head : s.chain ≡ head_of (last_or none (events_of (read_lines s.file)))

  All-append :
      (lines : List Bytes) (line : Bytes)
      → All (λ (m : Bytes). l.is_utf8 m ≡ true) lines
      → l.is_utf8 line ≡ true
      → All (λ (m : Bytes). l.is_utf8 m ≡ true) (lines ++ line ∷ [])
  All-append [] line a h = (h, tt)
  All-append (m ∷ lines) line a h = (a.0, All-append lines line a.1 h)

  events_of-append :
      (lines : List Bytes) (line : Bytes) (e : Event)
      → l.from_line line ≡ some e
      → events_of (lines ++ line ∷ []) ≡ events_of lines ++ e ∷ []
  events_of-append [] line e h = rw (h, events_of) refl
  events_of-append (m ∷ lines) line e h = elim (Option-cases (l.from_line m)) [
    | inl a ↦ ground (arith, events_of-append lines line e h)
    | inr (f, a) ↦ ground (arith, events_of-append lines line e h)
  ]

  last_or-append :
      (prev : Option Event) (es : List Event) (e : Event) → last_or prev (es ++ e ∷ []) ≡ some e
  last_or-append prev [] e = refl
  last_or-append prev (f ∷ es) e = last_or-append (some f) es e

  IsChain-append :
      (prev : Option Event) (es : List Event) (e : Event) (canon : Bytes)
      → IsChain x prev es
      → Good x (last_or prev es) e canon
      → IsChain x prev (es ++ e ∷ [])
  IsChain-append prev [] e canon c g = ((canon, g), tt)
  IsChain-append prev (f ∷ es) e canon c g = (c.0, IsChain-append (some f) es e canon c.1 g)

  -- An event that has canonical bytes, where there is one.
  abbrev HasBytes : Option Event → Type 0
  HasBytes none = Unit
  HasBytes (some e) = (canon : Bytes) × (canonical_bytes x e ≡ some canon)

  last_or-HasBytes :
      (prev : Option Event) (es : List Event)
      → IsChain x prev es
      → HasBytes prev
      → HasBytes (last_or prev es)
  last_or-HasBytes prev [] c h = h
  last_or-HasBytes prev (e ∷ es) c h = last_or-HasBytes (some e) es c.1 (c.0.0, c.0.1.0)

  head_of-Follows :
      (prev : Option Event) (e : Event)
      → HasBytes prev
      → e.chain_index ≡ (head_of prev).next_index
      → e.prev_hash_hex ≡ prev_hash x l (head_of prev).last_canonical
      → e.chain_index < 2 ^ 64
      → Follows x prev e
  head_of-Follows none e b i p small = inl (i, p)
  head_of-Follows (some f) e (canon, b) i p small = (i, small, (canon, b, p ∙ ap (prev_hash x l) b))

  -- The signature is no part of what is signed.
  canonical_bytes-signed_event :
      (e : Event) (m : Bytes) → canonical_bytes x (signed_event x l e m) ≡ canonical_bytes x e
  unfolding canonical_bytes signed_object insert remove
  canonical_bytes-signed_event e m = refl

  module _ (h : Honest x l) where
    signed_event-SignedAs :
        (e : Event) (canon : Bytes)
        → e.signer_pubkey_b64 ≡ l.signer_pubkey_b64
        → SignedAs x canon (signed_event x l e canon)
    signed_event-SignedAs e canon k = record {
      pk = h.pk;
      sig = l.sign canon;
      vk = h.vk;
      pubkey = ap x.b64_decode k ∙ h.pubkey;
      pubkey_length = h.pubkey_length;
      key = h.key;
      signature = h.decodes canon;
      signature_length = h.signature_length canon;
      verifies = h.verifies canon;
    }

    module _ (s : LogState x l) (v : Sound s) (e : Event) (canon : Bytes) (line : Bytes) where
      -- The event is the next one of the log's own key.
      pub record IsNext : Type 0 where
        pub index : e.chain_index ≡ s.chain.next_index
        pub link : e.prev_hash_hex ≡ prev_hash x l s.chain.last_canonical
        pub own_key : e.signer_pubkey_b64 ≡ l.signer_pubkey_b64
        pub bytes : canonical_bytes x e ≡ some canon
        pub written : l.to_line (signed_event x l e canon) ≡ some line
        pub terminated : IsTerminated s.file
        pub appended : l.write_all (line ++ 10 ∷ []) s.file ≡ none
        pub room : s.chain.next_index + 1 < 2 ^ 64

      abbrev pub after : LogState x l
      after = record {
        chain = record {
          next_index = saturating_next x l s.chain.next_index;
          last_canonical = some canon;
        };
        file = s.file ++ (line ++ 10 ∷ []);
      }

      pub append_event_lem : IsNext → append_event x l e s ≡ (ok s.chain.next_index, after)
      unfolding append_event append
      append_event_lem n = ground (arith, n.bytes, n.written, n.appended)

      read_lines-after : IsNext → read_lines after.file ≡ read_lines s.file ++ line ∷ []
      read_lines-after n =
          read_lines-append s.file (line ++ 10 ∷ []) n.terminated
          ∙ ap (λ (ls : List Bytes). read_lines s.file ++ ls)
              (read_lines-line line (h.one_line _ line n.written))

      pub events_of-after :
          IsNext
          → events_of (read_lines after.file)
            ≡ events_of (read_lines s.file) ++ signed_event x l e canon ∷ []
      events_of-after n =
          ap events_of (read_lines-after n)
          ∙ events_of-append (read_lines s.file) line (signed_event x l e canon)
              (h.reads _ line n.written)

      pub after-IsTerminated : IsNext → IsTerminated after.file
      after-IsTerminated n =
          subst IsTerminated (append_assoc s.file line (10 ∷ []))
            (append-IsTerminated (s.file ++ line))

      signed_event-Good :
          IsNext
          → Good x (last_or none (events_of (read_lines s.file))) (signed_event x l e canon) canon
      signed_event-Good n = (
        canonical_bytes-signed_event e canon ∙ n.bytes,
        signed_event-SignedAs e canon n.own_key,
        head_of-Follows (last_or none (events_of (read_lines s.file))) (signed_event x l e canon)
            (last_or-HasBytes none (events_of (read_lines s.file)) v.chain tt)
            (n.index ∙ ap (λ (c : ChainState). c.next_index) v.head)
            (n.link ∙ ap (λ (c : ChainState). prev_hash x l c.last_canonical) v.head)
            (omega (arith, n.index, n.room)),
      )

      pub after-Sound : IsNext → Sound after
      after-Sound n =
          let events = events_of-after n in
          record {
            readable =
                subst (All (λ (m : Bytes). l.is_utf8 m ≡ true)) (sym (read_lines-after n))
                  (All-append (read_lines s.file) line v.readable (h.utf8 _ line n.written));
            chain = subst (IsChain x none) (sym events) (
                IsChain-append none (events_of (read_lines s.file)) (signed_event x l e canon) canon
                  v.chain (signed_event-Good n));
            head =
                rw
                  (
                    events,
                    last_or-append none (events_of (read_lines s.file)) (signed_event x l e canon),
                  )
                  (rw (canonical_bytes-signed_event e canon, n.bytes) (same_place n));
          }
        where
          same_place :
              IsNext
              → after.chain ≡ record { next_index = e.chain_index + 1; last_canonical = some canon }
          same_place n = ground (arith, n.index, n.room)
