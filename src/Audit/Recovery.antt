-- ===== src/Audit/Recovery.antt =====
-- `recover_chain_head` of crates/ne-supervisor/src/audit.rs, on the file that a log wrote.
use ne_enclave.Common.{
  All, true, ℕ, ◌+◌, ◌%◌, ◌^◌, ◌<◌, ◌≡◌, refl, sym, ap, ◌∙◌, inl, inr, Option, none, some, List, [],
  ◌∷◌, ok, arith, Option-cases, subst,
}
use ne_enclave.Audit.Event.{Bytes, Externals, canonical_bytes}
use ne_enclave.Audit.Chain.{IsChain}
use ne_enclave.Audit.Log.{
  ChainState, LogExternals, LogState, recover_from, recover_chain_head, read_lines,
}
use ne_enclave.Audit.Appending.{Event, events_of, last_or, head_of, Sound}

module _ (x : Externals) (l : LogExternals x) where
  -- The place that recovery computes behind an event: the index wraps round.
  abbrev recovered : Option (Event x l) → ChainState
  recovered none = record { next_index = 0; last_canonical = none }
  recovered (some e) = record {
    next_index = (e.chain_index + 1) % 2 ^ 64;
    last_canonical = canonical_bytes x e;
  }

  events_of_event :
      (line : Bytes) (lines : List Bytes) (e : Event x l)
      → l.from_line line ≡ some e
      → events_of x l (line ∷ lines) ≡ e ∷ events_of x l lines
  events_of_event line lines e a = rw (a, events_of) refl

  recover_from_event :
      (line : Bytes) (lines : List Bytes) (e : Event x l) (canon : List ℕ) (chain : ChainState)
      → l.is_utf8 line ≡ true
      → l.from_line line ≡ some e
      → canonical_bytes x e ≡ some canon
      → recover_from x l (line ∷ lines) chain ≡ recover_from x l lines (recovered (some e))
  unfolding recover_from
  recover_from_event line lines e canon chain t a b = ground arith

  recover_from_lem :
      (prev : Option (Event x l)) (lines : List Bytes)
      → All (λ (line : Bytes). l.is_utf8 line ≡ true) lines
      → IsChain x prev (events_of x l lines)
      → recover_from x l lines (recovered prev)
        ≡ ok (recovered (last_or x l prev (events_of x l lines)))
  unfolding recover_from
  recover_from_lem prev [] t c = refl
  recover_from_lem prev (line ∷ lines) t c = elim (Option-cases (l.from_line line)) [
    | inl a ↦ ground (arith, t.0, recover_from_lem prev lines t.1)
    | inr (e, a) ↦
        let d : IsChain x prev (e ∷ events_of x l lines) =
          subst (IsChain x prev) (events_of_event line lines e a) c in
        recover_from_event line lines e d.0.0 (recovered prev) t.0 a d.0.1.0
        ∙ recover_from_lem (some e) lines t.1 d.1
        ∙ ap (λ es. ok (recovered (last_or x l prev es))) (sym (events_of_event line lines e a))
  ]

  recovered_lem :
      (o : Option (Event x l)) → (head_of x l o).next_index < 2 ^ 64 → recovered o ≡ head_of x l o
  recovered_lem none h = refl
  recovered_lem (some e) h = ground arith

  -- A restart finds the log's place again: what recovery reads from the file of a sound log, whose
  -- next index is in range, is the place that the log was at.
  pub recover_chain_head_lem :
      (s : LogState x l)
      → Sound x l s
      → s.chain.next_index < 2 ^ 64
      → recover_chain_head x l s.file ≡ ok s.chain
  unfolding recover_chain_head
  recover_chain_head_lem s v h =
      recover_from_lem none (read_lines s.file) v.readable v.chain
      ∙ ap ok (
          recovered_lem (last_or x l none (events_of x l (read_lines s.file)))
            (omega (arith, h, ap (λ (c : ChainState). c.next_index) v.head))
          ∙ sym v.head)
