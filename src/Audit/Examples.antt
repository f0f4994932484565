-- ===== src/Audit/Examples.antt =====
-- The theorems on the audit log of crates/ne-protocol/src/audit.rs and
-- crates/ne-supervisor/src/audit.rs, at a small log.
use ne_enclave.Common.{
  ◌≡◌, ◌↔◌, refl, sym, ap, ◌∙◌, true, false, string_eq, none, some, [], ◌∷◌, ok, err, arith, subst,
  List, ◌++◌,
}
use ne_enclave.Map.{lookup, insert, remove}
use ne_enclave.Audit.Event.{
  workspace_created, dns_denied, AuditEvent, canonical_bytes, signed_object,
}
use ne_enclave.Audit.Verify.{
  ChainVerification, broken_link, check_signature, check_link, check_event, verify_from,
  verify_chain,
}
use ne_enclave.Audit.Chain.{IsChain}
use ne_enclave.Audit.Acceptance.{Breaks, verify_chain-ok_iff, verify_chain-Breaks}
use ne_enclave.Audit.Pinning.{
  KeepsScalars, NoClash, SameContent, Pointwise, verify_chain-SameContent,
}
use ne_enclave.Audit.Log.{
  time, ListEventsRequest, Now, LogState, signed_event, emit, list, recover_chain_head,
  append_event, append, list_from, read_lines,
}
use ne_enclave.Audit.Appending.{Event, events_of, Readable, Sound}
use ne_enclave.Audit.Lines.{IsTerminated}
use ne_enclave.Audit.Emission.{next_event, emit-Sound}
use ne_enclave.Audit.Recovery.{recover_chain_head_lem}
use ne_enclave.Audit.Listing.{Picks, limit_of, list-Picks}
use ne_enclave.Audit.Instance.{Json, null, toy, toy_log, toy-Honest, toy_line, read_line}

-- A log whose file holds one line that is no event.
abbrev opened : LogState toy toy_log
opened = record { chain = record { next_index = 0; last_canonical = none }; file = 0 ∷ 10 ∷ [] }

opened-Sound : Sound toy toy_log opened
unfolding read_lines read_line
opened-Sound = record { readable = (refl, tt); chain = tt; head = refl }

abbrev noon : Now
noon = record { millis = some 12; ulid = "01" }

abbrev first_event : AuditEvent Json
first_event = next_event toy toy_log noon workspace_created (some "a") null opened 12

first_bytes : canonical_bytes toy first_event ≡ some (0 ∷ [])
unfolding canonical_bytes signed_object lookup insert remove
first_bytes = refl

abbrev signed : AuditEvent Json
signed = signed_event toy toy_log first_event (0 ∷ [])

signed_line : toy_line signed ≡ some (1 ∷ [])
unfolding toy_line
signed_line = refl

emit-Sound_example :
    ((emit toy toy_log noon workspace_created (some "a") null opened).0 ≡ ok 0)
    × (events_of toy toy_log
          (read_lines (emit toy toy_log noon workspace_created (some "a") null opened).1.file)
        ≡ events_of toy toy_log (read_lines opened.file) ++ signed ∷ [])
    × ((verify_chain toy (
          events_of toy toy_log (
            read_lines (emit toy toy_log noon workspace_created (some "a") null opened).1.file))).ok
        ≡ true)
    × Sound toy toy_log (emit toy toy_log noon workspace_created (some "a") null opened).1
    × IsTerminated (emit toy toy_log noon workspace_created (some "a") null opened).1.file
emit-Sound_example =
    emit-Sound toy toy_log noon workspace_created (some "a") null opened 12 (0 ∷ []) (1 ∷ [])
      toy-Honest opened-Sound refl refl first_bytes signed_line refl (omega arith)

abbrev before_epoch : Now
before_epoch = record { millis = none; ulid = "02" }

no_time : (emit toy toy_log before_epoch dns_denied none null opened).0 ≡ err time
unfolding emit
no_time = refl

-- The log after the emission, and the place that a restart finds.
abbrev used_log : LogState toy toy_log
used_log = record {
  chain = record { next_index = 1; last_canonical = some (0 ∷ []) };
  file = 0 ∷ 10 ∷ 1 ∷ 10 ∷ [];
}

emitted : (emit toy toy_log noon workspace_created (some "a") null opened).1 ≡ used_log
unfolding emit append_event append toy_line canonical_bytes signed_object lookup insert remove
emitted = refl

used_log-Sound : Sound toy toy_log used_log
used_log-Sound =
    subst (Sound toy toy_log) emitted
      (emit-Sound toy toy_log noon workspace_created (some "a") null opened 12 (0 ∷ []) (1 ∷ [])
        toy-Honest opened-Sound refl refl first_bytes signed_line refl (omega arith)).3

recover_chain_head_lem_example : recover_chain_head toy toy_log used_log.file ≡ ok used_log.chain
recover_chain_head_lem_example =
    recover_chain_head_lem toy toy_log used_log used_log-Sound (omega arith)

abbrev of_a : ListEventsRequest
of_a = record { workspace_id = some "a"; since_chain_index = 0; limit = 0 }

used_log-Readable : Readable toy toy_log used_log.file
unfolding read_lines
used_log-Readable = (refl, (refl, tt))

list-Picks_example :
    (out : List (Event toy toy_log)) × (list toy toy_log of_a used_log.file ≡ ok out)
    × Picks toy toy_log of_a
        (limit_of of_a.limit)
        (events_of toy toy_log (read_lines used_log.file))
        out
list-Picks_example = list-Picks toy toy_log of_a used_log.file used_log-Readable

listed : list toy toy_log of_a used_log.file ≡ ok (signed ∷ [])
unfolding list list_from read_lines read_line
listed = refl

-- A file that ends in a torn line: the emission succeeds, and its event is in no line.
abbrev torn : LogState toy toy_log
torn = record { chain = record { next_index = 0; last_canonical = none }; file = 0 ∷ [] }

torn_emits : (emit toy toy_log noon workspace_created (some "a") null torn).0 ≡ ok 0
unfolding emit append_event append toy_line canonical_bytes signed_object lookup insert remove
torn_emits = refl

torn_loses :
    list toy toy_log of_a (emit toy toy_log noon workspace_created (some "a") null torn).1.file
    ≡ ok []
unfolding emit append_event append toy_line list list_from read_lines read_line canonical_bytes
    signed_object lookup insert remove
torn_loses = refl

-- The event with the same signature in another spelling, and one whose link is wrong.
abbrev respelled : AuditEvent Json
respelled = record signed { signature_b64 = "zeros=" }

abbrev unlinked : AuditEvent Json
unlinked = record signed { prev_hash_hex = "first" }

abbrev accepted : ChainVerification
accepted = record {
  ok = true;
  count = 1;
  first_index = some 0;
  last_index = some 0;
  root_hex = some "first";
  first_error = none;
}

signed_verifies : verify_chain toy (signed ∷ []) ≡ accepted
unfolding verify_chain verify_from check_event check_link check_signature canonical_bytes
    signed_object lookup insert remove
signed_verifies = refl

respelled_verifies : verify_chain toy (respelled ∷ []) ≡ accepted
unfolding verify_chain verify_from check_event check_link check_signature canonical_bytes
    signed_object lookup insert remove
respelled_verifies = refl

unlinked_refused :
    (verify_chain toy (unlinked ∷ [])).first_error
    ≡ some (record { index = 0; reason = broken_link })
unfolding verify_chain verify_from check_event check_link check_signature canonical_bytes
    signed_object lookup insert remove
unlinked_refused = refl

verify_chain-ok_iff_example :
    ((verify_chain toy (signed ∷ [])).ok ≡ true) ↔ IsChain toy none (signed ∷ [])
verify_chain-ok_iff_example = verify_chain-ok_iff toy (signed ∷ [])

verify_chain-Breaks_example :
    Breaks toy none (unlinked ∷ []) (record { index = 0; reason = broken_link })
    × ((verify_chain toy (unlinked ∷ [])).ok ≡ false)
    × ((verify_chain toy (unlinked ∷ [])).root_hex ≡ none)
verify_chain-Breaks_example =
    verify_chain-Breaks toy (unlinked ∷ []) (record { index = 0; reason = broken_link })
      unlinked_refused

toy-KeepsScalars : KeepsScalars toy
toy-KeepsScalars = record { text = λ s t h. ground arith; numeral = λ m n h. ground arith }

signed-NoClash : NoClash toy signed respelled
unfolding canonical_bytes signed_object lookup insert remove
signed-NoClash = record { digest = λ c d h k same. ground arith; object = λ b h k key. refl }

verify_chain-SameContent_example : Pointwise toy (SameContent toy) (signed ∷ []) (respelled ∷ [])
verify_chain-SameContent_example =
    verify_chain-SameContent toy toy-KeepsScalars (signed ∷ []) (respelled ∷ [])
      (signed-NoClash, tt) (ap (λ (v : ChainVerification). v.ok) signed_verifies)
      (ap (λ (v : ChainVerification). v.ok) respelled_verifies)
      (ap (λ (v : ChainVerification). v.root_hex) signed_verifies
        ∙ sym (ap (λ (v : ChainVerification). v.root_hex) respelled_verifies))
