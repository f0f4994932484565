-- ===== src/Dns/Policy.antt =====
-- What the allowlist of crates/ne-dns-filter/src/lib.rs admits, and what the filter forwards.
use ne_enclave.Common.{
  ℕ, Bool, true, false, not, ◌&&◌, ◌||◌, ◌≡◌, refl, ◌⊎◌, ◌↔◌, inl, inr, ◌∙◌, Option, none, some,
  List, [], ◌∷◌, ◌++◌, any, arith, Bool-cases, Option-cases,
}
use ne_enclave.Text.{Text, is_empty, same_text, same_text_iff, strip_suffix, ends_with}
use ne_enclave.Text.Laws.{strip_suffix-append, strip_suffix_of_append}
use ne_enclave.Dns.Allowlist.{Unicode, normalize, insert_text, insert_patterns, new, matches}
use ne_enclave.Dns.Wire.{Message, parse_query, nxdomain_response, formerr_response}
use ne_enclave.Dns.Filter.{Handled, handle_one, forward}

-- `name` is the domain `allow`, or a name below it.
abbrev pub Under : Text → Text → Type 0
Under allow name = (name ≡ allow) ⊎ ((labels : Text) × (name ≡ labels ++ b'.' ∷ allow))

abbrev is_under : Text → Text → Bool
is_under name allow = same_text name allow || ends_with (b'.' ∷ allow) name

ends_with_iff :
    (suffix name : Text) → (ends_with suffix name ≡ true) ↔ ((p : Text) × (name ≡ p ++ suffix))
ends_with_iff suffix name = (
  λ h. found (strip_suffix suffix name) refl h,
  λ (p, e). rw e (rw (strip_suffix_of_append p suffix, ends_with) refl),
)
  where
    found :
        (o : Option Text)
        → strip_suffix suffix name ≡ o
        → ends_with suffix name ≡ true
        → (p : Text) × (name ≡ p ++ suffix)
    found none e h = ground arith
    found (some p) e h = (p, strip_suffix-append suffix name p e)

is_under_iff : (name allow : Text) → (is_under name allow ≡ true) ↔ Under allow name
is_under_iff name allow = (
  λ h. elim (Bool-cases (same_text name allow)) [
    | inl e ↦ inl ((same_text_iff name allow).0 e)
    | inr e ↦ inr ((ends_with_iff (b'.' ∷ allow) name).0 (ground arith))
  ],
  λ u. elim u [
    | inl e ↦ ground (arith, (same_text_iff name allow).1 e)
    | inr p ↦ ground (arith, (ends_with_iff (b'.' ∷ allow) name).1 p)
  ],
)

any-insert_text :
    (f : Text → Bool) (s : Text) (set : List Text) → any f (insert_text s set) ≡ (f s || any f set)
any-insert_text f s set = elim (Bool-cases (any (same_text s) set)) [
  | inl e ↦ rw e (held set e)
  | inr e ↦ rw e refl
]
  where
    held : (l : List Text) → any (same_text s) l ≡ true → any f l ≡ (f s || any f l)
    held [] h = ground arith
    held (t ∷ l) h = elim (Bool-cases (same_text s t)) [
      | inl e ↦ rw (← (same_text_iff s t).0 e) (ground arith)
      | inr e ↦ ground (arith, held l)
    ]

module _ (u : Unicode) where
  -- Some pattern that is not empty when normalized covers the normalized name.
  abbrev pub Permits : List Text → Text → Type 0
  Permits [] name = ⊥
  Permits (raw ∷ patterns) name =
      ((is_empty (normalize u raw) ≡ false) × Under (normalize u raw) name) ⊎ Permits patterns name

  abbrev counts : (Text → Bool) → Text → Bool
  counts f raw = not (is_empty (normalize u raw)) && f (normalize u raw)

  any-insert_patterns :
      (f : Text → Bool) (patterns set : List Text)
      → any f (insert_patterns u patterns set) ≡ (any f set || any (counts f) patterns)
  unfolding insert_patterns
  any-insert_patterns f [] set = ground arith
  any-insert_patterns f (raw ∷ patterns) set =
      any-insert_patterns f patterns _ ∙ ground (arith, any-insert_text f (normalize u raw) set)

  covered_iff :
      (name : Text) (patterns : List Text)
      → (any (counts (is_under name)) patterns ≡ true) ↔ Permits patterns name
  covered_iff name [] = ground arith
  covered_iff name (raw ∷ patterns) =
      ground (arith, is_under_iff name (normalize u raw), covered_iff name patterns)

  -- The allowlist made of `patterns` matches a name exactly if the normalized name equals, or ends
  -- with a dot and then, the normalized form of a pattern that is not empty.
  pub matches-new_iff :
      (patterns : List Text) (qname : Text)
      → (matches u (new u patterns) qname ≡ true) ↔ Permits patterns (normalize u qname)
  unfolding matches new
  matches-new_iff patterns qname =
      rw (any-insert_patterns (is_under (normalize u qname)) patterns [])
        (covered_iff (normalize u qname) patterns)

  -- The first question of `query` parses to the name and the type, and a pattern covers the name.
  pub record Covered (patterns : List Text) (query : Message) (qname : Text) (qtype : ℕ)
      : Type 0 where
    pub parsed : parse_query u query ≡ some (qname, qtype)
    pub permitted : Permits patterns (normalize u qname)

  -- What the client gets for a query that no pattern covers.
  pub record Refused (patterns : List Text) (query : Message) (h : Handled) : Type 0 where
    pub uncovered : (qname : Text) (qtype : ℕ) → ¬ Covered patterns query qname qtype
    pub kept : h.forwarded ≡ false
    pub reply : (h.reply ≡ nxdomain_response query) ⊎ (h.reply ≡ formerr_response query)

  module _ (upstream : Message → Option Message) (patterns : List Text) (query : Message) where
    -- The query went to the resolver, and the client gets its answer, or NXDOMAIN if it gives none.
    pub record Forwarded (h : Handled) : Type 0 where
      pub asked : h.forwarded ≡ true
      pub reply :
          h.reply ≡ (elim (upstream query) [ none ↦ nxdomain_response query | some r ↦ some r ])

    forward-Forwarded :
        (qname : Text) (qtype : ℕ) → Forwarded (forward u upstream query qname qtype)
    unfolding forward
    forward-Forwarded qname qtype = record { asked = ground arith; reply = ground arith }

    unparsed_kept :
        parse_query u query ≡ none
        → Refused patterns query (handle_one u upstream (new u patterns) query)
    unfolding handle_one
    unparsed_kept e = record {
      uncovered = λ qname qtype c. ground (arith, c.parsed);
      kept = rw (e, handle_one) refl;
      reply = inr (rw (e, handle_one) refl);
    }

    unmatched_kept :
        (qname : Text) (qtype : ℕ)
        → parse_query u query ≡ some (qname, qtype)
        → matches u (new u patterns) qname ≡ false
        → Refused patterns query (handle_one u upstream (new u patterns) query)
    unfolding handle_one
    unmatched_kept qname qtype e m = record {
      uncovered = λ q t c.
          let same : q ≡ qname = ground (arith, c.parsed) in
          let covers = (matches-new_iff patterns q).1 c.permitted in ground (arith, covers, same);
      kept = rw (e, handle_one) (rw m refl);
      reply = inl (rw (e, handle_one) (rw m refl));
    }

    -- Whatever the upstream resolver does: if the first question of a query parses and a pattern of
    -- the allowlist covers its name, the query goes to the resolver, and the client gets the resolver's
    -- answer, or NXDOMAIN if there is none; if not, it stays here and is answered by NXDOMAIN or
    -- FORMERR, made from the query itself.
    pub handle_one_forwards :
        ((qname : Text) × (qtype : ℕ) × Covered patterns query qname qtype
          × (handle_one u upstream (new u patterns) query ≡ forward u upstream query qname qtype)
          × Forwarded (handle_one u upstream (new u patterns) query))
        ⊎ Refused patterns query (handle_one u upstream (new u patterns) query)
    unfolding handle_one
    handle_one_forwards = elim (Option-cases (parse_query u query)) [
      | inl e ↦ inr (unparsed_kept e)
      | inr ((qname, qtype), e) ↦ elim (Bool-cases (matches u (new u patterns) qname)) [
        | inl m ↦ inl (
          qname,
          qtype,
          record { parsed = e; permitted = (matches-new_iff patterns qname).0 m },
          rw (e, handle_one) (rw m refl),
          rw (e, handle_one) (rw m (forward-Forwarded qname qtype)),
        )
        | inr m ↦ inr (unmatched_kept qname qtype e m)
      ]
    ]
