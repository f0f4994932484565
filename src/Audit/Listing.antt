-- ===== src/Audit/Listing.antt =====
-- `list` of crates/ne-supervisor/src/audit.rs.
use mathlib.Core.List.{append_assoc, append-nil}
use ne_enclave.Common.{
  All, ok, none, Option, String, eq_iff, ◌⊎◌, ◌↔◌, ◌≤◌, subst, ℕ, zero, suc, ◌+◌, ◌-◌, ◌≡◌, refl,
  sym, ap, ◌∙◌, inl, inr, true, some, List, [], ◌∷◌, ◌++◌, arith, length, length-append, take,
  filter, leb, Option-cases, Bool-cases, if◌then◌else◌,
}
use ne_enclave.Audit.Event.{Bytes, Externals}
use ne_enclave.Audit.Log.{
  ListEventsRequest, LogExternals, list, list_from, matches_request, effective_limit, of_workspace,
  read_lines,
}
use ne_enclave.Audit.Appending.{Event, events_of, Readable}

-- What a request's limit means.
abbrev pub limit_of : ℕ → ℕ
limit_of zero = 100
limit_of (suc n) = suc n

module _ (x : Externals) (l : LogExternals x) where
  -- What the loop makes of a line with an event that the request asks for.
  list_from_taken :
      (req : ListEventsRequest) (line : Bytes) (lines : List Bytes) (out : List (Event x l))
      (e : Event x l)
      → l.is_utf8 line ≡ true
      → l.from_line line ≡ some e
      → matches_request x l req e ≡ true
      → list_from x l req (line ∷ lines) out ≡ (
          if leb (effective_limit x l req) (length (out ++ e ∷ []))
          then ok (out ++ e ∷ [])
          else list_from x l req lines (out ++ e ∷ []))
  unfolding list_from
  list_from_taken req line lines out e t a taken =
      rw (t, list_from) (rw (a, list_from) (rw taken refl))

  -- That event is the last one, or the rest of the loop lists those behind it.
  list_from_last :
      (req : ListEventsRequest) (line : Bytes) (lines : List Bytes) (out : List (Event x l))
      (e : Event x l)
      → l.is_utf8 line ≡ true
      → l.from_line line ≡ some e
      → matches_request x l req e ≡ true
      → effective_limit x l req ≡ length out + 1
      → list_from x l req (line ∷ lines) out
        ≡ ok (out ++ take 1 (filter (matches_request x l req) (events_of x l (line ∷ lines))))
  list_from_last req line lines out e t a taken h =
      list_from_taken req line lines out e t a taken ∙ ground (arith, length-append out (e ∷ []))

  list_from_more :
      (req : ListEventsRequest) (n : ℕ) (line : Bytes) (lines : List Bytes) (out : List (Event x l))
      (e : Event x l)
      → l.is_utf8 line ≡ true
      → l.from_line line ≡ some e
      → matches_request x l req e ≡ true
      → effective_limit x l req ≡ length out + suc (suc n)
      → list_from x l req lines (out ++ e ∷ [])
        ≡ ok (
            (out ++ e ∷ [])
            ++ take (suc n) (filter (matches_request x l req) (events_of x l lines)))
      → list_from x l req (line ∷ lines) out
        ≡ ok (
            out
            ++ take (suc (suc n)) (filter (matches_request x l req) (events_of x l (line ∷ lines))))
  list_from_more req n line lines out e t a taken h rest =
      list_from_taken req line lines out e t a taken
      ∙ ground (
        arith,
        length-append out (e ∷ []),
        append_assoc out (e ∷ [])
            (take (suc n) (filter (matches_request x l req) (events_of x l lines))),
      )

  -- The loop, with `n` more events to list after the next one.
  list_from_lem :
      (req : ListEventsRequest) (n : ℕ) (lines : List Bytes) (out : List (Event x l))
      → All (λ (line : Bytes). l.is_utf8 line ≡ true) lines
      → effective_limit x l req ≡ length out + suc n
      → list_from x l req lines out
        ≡ ok (out ++ take (suc n) (filter (matches_request x l req) (events_of x l lines)))
  unfolding list_from
  list_from_lem req n [] out t h = ap ok (sym (append-nil out))
  list_from_lem req zero (line ∷ lines) out t h = elim (Option-cases (l.from_line line)) [
    | inl a ↦ ground (arith, t.0, list_from_lem req zero lines out t.1 h)
    | inr (e, a) ↦ elim (Bool-cases (matches_request x l req e)) [
      | inr skipped ↦ ground (arith, t.0, list_from_lem req zero lines out t.1 h)
      | inl taken ↦ list_from_last req line lines out e t.0 a taken (omega (arith, h))
    ]
  ]
  list_from_lem req (suc n) (line ∷ lines) out t h = elim (Option-cases (l.from_line line)) [
    | inl a ↦ ground (arith, t.0, list_from_lem req (suc n) lines out t.1 h)
    | inr (e, a) ↦ elim (Bool-cases (matches_request x l req e)) [
      | inr skipped ↦ ground (arith, t.0, list_from_lem req (suc n) lines out t.1 h)
      | inl taken ↦ list_from_more req n line lines out e t.0 a taken h (
          list_from_lem req n lines (out ++ e ∷ []) t.1
            (omega (arith, h, length-append out (e ∷ []))))
    ]
  ]

  -- The request asks for the event: it stands at the request's index or behind it, and is about the
  -- request's workspace if that names one.
  pub record Asked (req : ListEventsRequest) (e : Event x l) : Type 0 where
    pub since : req.since_chain_index ≤ e.chain_index
    pub about : (req.workspace_id ≡ none) ⊎ (req.workspace_id ≡ e.workspace_id)

  -- `out` is the first `n` events of a list that the request asks for, or all of them if there are
  -- fewer.
  pub data Picks (req : ListEventsRequest) : ℕ → List (Event x l) → List (Event x l) → Type 0 where
    enough : {es : List (Event x l)} → Picks req zero es []
    ended : {n : ℕ} → Picks req n [] []
    picked :
        {n : ℕ} {e : Event x l} {es out : List (Event x l)}
        → Asked req e
        → Picks req n es out
        → Picks req (suc n) (e ∷ es) (e ∷ out)
    passed :
        {n : ℕ} {e : Event x l} {es out : List (Event x l)}
        → ¬ Asked req e
        → Picks req n es out
        → Picks req n (e ∷ es) out

  about_lem :
      (wanted id : Option String)
      → (of_workspace x l wanted id ≡ true) ↔ ((wanted ≡ none) ⊎ (wanted ≡ id))
  about_lem none id = (λ _. inl refl, λ _. refl)
  about_lem (some w) none = ground arith
  about_lem (some w) (some i) = ground (arith, eq_iff i w)

  matches_request_iff :
      (req : ListEventsRequest) (e : Event x l) → (matches_request x l req e ≡ true) ↔ Asked req e
  matches_request_iff req e = (
    λ h. record {
      since = ground arith;
      about = (about_lem req.workspace_id e.workspace_id).0 (ground arith);
    },
    λ a.
        let named = (about_lem req.workspace_id e.workspace_id).1 a.about in
        let since = a.since in ground arith,
  )

  take_filter-Picks :
      (req : ListEventsRequest) (n : ℕ) (es : List (Event x l))
      → Picks req n es (take n (filter (matches_request x l req) es))
  take_filter-Picks req zero es = enough
  take_filter-Picks req (suc n) [] = ended
  take_filter-Picks req (suc n) (e ∷ es) = elim (Bool-cases (matches_request x l req e)) [
    | inl h ↦ rw h (picked ((matches_request_iff req e).0 h) (take_filter-Picks req n es))
    | inr h ↦ rw h (
        passed (λ a. ground (arith, (matches_request_iff req e).1 a))
          (take_filter-Picks req (suc n) es))
  ]

  effective_limit_lem : (req : ListEventsRequest) → effective_limit x l req ≡ limit_of req.limit
  effective_limit_lem req = ground arith

  -- From a file whose lines are UTF-8, `list` returns, in the order of the file, the first events that
  -- the request asks for: those at its index or behind it that are about its workspace, if it names
  -- one. They are as many as its limit, 0 standing for 100, or all where there are fewer.
  pub list-Picks :
      (req : ListEventsRequest) (file : Bytes)
      → Readable x l file
      → (out : List (Event x l)) × (list x l req file ≡ ok out)
        × Picks req (limit_of req.limit) (events_of x l (read_lines file)) out
  unfolding list
  list-Picks req file t =
      let positive : effective_limit x l req ≡ suc (effective_limit x l req - 1) = ground arith in
      let n : ℕ = effective_limit x l req in
      let es : List (Event x l) = events_of x l (read_lines file) in
      (
        take n (filter (matches_request x l req) es),
        list_from_lem req (n - 1) (read_lines file) [] t (omega (arith, positive))
            ∙ ap (λ k. ok (take k (filter (matches_request x l req) es))) (sym positive),
        subst (λ k. Picks req k es (take n (filter (matches_request x l req) es)))
            (effective_limit_lem req) (take_filter-Picks req n es),
      )
