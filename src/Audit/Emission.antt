-- ===== src/Audit/Emission.antt =====
-- What `emit` of crates/ne-supervisor/src/audit.rs does to a log.
use ne_enclave.Common.{
  ℕ, ◌+◌, ◌-◌, ◌^◌, ◌<◌, ◌≡◌, refl, ◌⊎◌, inl, inr, true, String, Option, none, some, [], ◌∷◌, ◌++◌,
  ok, err, arith, min, Option-cases,
}
use ne_enclave.Audit.Event.{Bytes, EventType, Externals, canonical_bytes}
use ne_enclave.Audit.Verify.{verify_chain}
use ne_enclave.Audit.Acceptance.{verify_chain-ok_iff}
use ne_enclave.Audit.Log.{
  AuditError, io, LogExternals, Now, LogState, unsigned_event, signed_event, append_event, emit,
  append, read_lines,
}
use ne_enclave.Audit.Lines.{IsTerminated}
use ne_enclave.Audit.Appending.{
  Honest, Event, events_of, Sound, IsNext, append_event_lem, events_of-after, after-Sound,
  after-IsTerminated,
}

module _ (x : Externals) (l : LogExternals x) where
  module _ (now : Now) (kind : EventType) (workspace : Option String) (payload : x.Value)
      (s : LogState x l) where
    -- The event that an emission at `millis` signs.
    abbrev pub next_event : ℕ → Event x l
    next_event millis =
        unsigned_event x l kind workspace payload (min millis (2 ^ 64 - 1)) now.ulid s.chain

    -- Where a log is sound, its file is empty or ends with a newline and its externals keep their
    -- promises, and the clock, the serialization and the writing of the line succeed and the index has
    -- room: an emission returns the next index, the lines of the file hold the signed event behind the
    -- events from before and all of them verify, and the log is sound and its file ends with a newline
    -- again.
    pub emit-Sound :
        (millis : ℕ) (canon : Bytes) (line : Bytes)
        → Honest x l
        → Sound x l s
        → IsTerminated s.file
        → now.millis ≡ some millis
        → canonical_bytes x (next_event millis) ≡ some canon
        → l.to_line (signed_event x l (next_event millis) canon) ≡ some line
        → l.write_all (line ++ 10 ∷ []) s.file ≡ none
        → s.chain.next_index + 1 < 2 ^ 64
        → ((emit x l now kind workspace payload s).0 ≡ ok s.chain.next_index)
          × (events_of x l (read_lines (emit x l now kind workspace payload s).1.file)
              ≡ events_of x l (read_lines s.file)
                ++ signed_event x l (next_event millis) canon ∷ [])
          × ((verify_chain x
                (events_of x l (read_lines (emit x l now kind workspace payload s).1.file))).ok
              ≡ true)
          × Sound x l (emit x l now kind workspace payload s).1
          × IsTerminated (emit x l now kind workspace payload s).1.file
    unfolding emit
    emit-Sound millis canon line h v terminated clock bytes written appended room =
        let n : IsNext x l h s v (next_event millis) canon line = record {
          index = refl;
          link = refl;
          own_key = refl;
          bytes = bytes;
          written = written;
          terminated = terminated;
          appended = appended;
          room = room;
        } in
        let sound = after-Sound x l h s v (next_event millis) canon line n in
        rw (clock, emit)
          (rw (append_event_lem x l h s v (next_event millis) canon line n) (
            refl,
            events_of-after x l h s v (next_event millis) canon line n,
            (verify_chain-ok_iff x _).1 sound.chain,
            sound,
            after-IsTerminated x l h s v (next_event millis) canon line n,
          ))

    -- An emission that fails does not move the log's place in the chain, and writes to the file only
    -- where the append itself failed.
    pub emit_failed :
        (e : AuditError)
        → (emit x l now kind workspace payload s).0 ≡ err e
        → ((emit x l now kind workspace payload s).1.chain ≡ s.chain)
          × (((emit x l now kind workspace payload s).1.file ≡ s.file) ⊎ (e ≡ io))
    unfolding emit append_event append
    emit_failed e h = elim (Option-cases now.millis) [
      | inl a ↦ ground arith
      | inr (m, a) ↦ elim (Option-cases (canonical_bytes x (next_event m))) [
        | inl b ↦ ground arith
        | inr (c, b) ↦ elim (Option-cases (l.to_line (signed_event x l (next_event m) c))) [
          | inl d ↦ ground arith
          | inr (line, d) ↦ ground arith
        ]
      ]
    ]
