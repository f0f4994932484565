-- ===== src/Protocol/Poll/Attempts.antt =====
-- The attempt operations of a poll request of crates/ne-protocol/src/fleet.rs, and the three loops
-- that check them.
use ne_enclave.Common.{
  ◌≡◌, ◌↔◌, refl, sym, ap, ◌∙◌, arith, List, [], ◌∷◌, ◌++◌, All, map, Result, ok, err, ◌⊎◌, inl,
  inr, ◌≤◌,
}
use ne_enclave.Protocol.Fleet.{FleetValidationError}
use ne_enclave.Protocol.Poll.{
  Attempt, attempt_eq, insert_attempts, insert_all_attempts, FleetPollRequest, renewal_attempt,
  release_attempt, report_attempt,
}
use ne_enclave.Protocol.Poll.Distinct.{Distinct, contains-Fresh}

abbrev pub Positive : Attempt → Type 0
Positive (lease_id, generation) = 1 ≤ generation

-- The set after the operations of a list.
abbrev pub pushed : List Attempt → List Attempt → List Attempt
pushed seen [] = seen
pushed seen (a ∷ l) = pushed (a ∷ seen) l

insert_attempts_lem :
    (seen l : List Attempt)
    → Distinct seen l
    → All Positive l
    → insert_attempts seen l ≡ ok (pushed seen l)
unfolding insert_attempts
insert_attempts_lem seen [] d p = refl
insert_attempts_lem seen ((a, g) ∷ l) d p =
    ground (arith, contains-Fresh seen (a, g), insert_attempts_lem ((a, g) ∷ seen) l)

insert_attempts-Distinct :
    (seen l t : List Attempt)
    → insert_attempts seen l ≡ ok t
    → (t ≡ pushed seen l) × Distinct seen l × All Positive l
unfolding insert_attempts
insert_attempts-Distinct seen [] t h = ground arith
insert_attempts-Distinct seen ((a, g) ∷ l) t h =
    ground (arith, contains-Fresh seen (a, g), insert_attempts-Distinct ((a, g) ∷ seen) l t)

Distinct-append :
    (seen l m : List Attempt)
    → Distinct seen (l ++ m) ↔ (Distinct seen l × Distinct (pushed seen l) m)
Distinct-append seen [] m = (λ d. (tt, d), λ d. d.1)
Distinct-append seen (a ∷ l) m =
    let rest = Distinct-append (a ∷ seen) l m in
    (λ d. let (e, f) = rest.0 d.1 in ((d.0, e), f), λ d. (d.0.0, rest.1 (d.0.1, d.1)))

All-append : (l m : List Attempt) → All Positive (l ++ m) ↔ (All Positive l × All Positive m)
All-append [] m = (λ p. (tt, p), λ p. p.1)
All-append (a ∷ l) m =
    let rest = All-append l m in
    (λ p. let (q, r) = rest.0 p.1 in ((p.0, q), r), λ p. (p.0.0, rest.1 (p.0.1, p.1)))

-- The operations of a request, in the order of the loops.
abbrev pub attempts_of : FleetPollRequest → List Attempt
attempts_of r =
    map renewal_attempt r.renewals
    ++ (map release_attempt r.releases ++ map report_attempt r.terminal_reports)

insert_cases :
    (seen l : List Attempt)
    → ((t : List Attempt) × (insert_attempts seen l ≡ ok t))
      ⊎ ((e : FleetValidationError) × (insert_attempts seen l ≡ err e))
insert_cases seen l = by_result (insert_attempts seen l)
  where
    by_result :
        (r : Result FleetValidationError (List Attempt))
        → ((t : List Attempt) × (r ≡ ok t)) ⊎ ((e : FleetValidationError) × (r ≡ err e))
    by_result (ok t) = inl (t, refl)
    by_result (err e) = inr (e, refl)

-- The loops accept the operations exactly if they are distinct and positive.
pub insert_all_attempts_iff :
    (r : FleetPollRequest)
    → (insert_all_attempts r ≡ ok tt) ↔ (Distinct [] (attempts_of r) × All Positive (attempts_of r))
unfolding insert_all_attempts
insert_all_attempts_iff r = (
  λ h. elim (insert_cases [] (map renewal_attempt r.renewals)) [
    | inr (e, a) ↦ ground arith
    | inl (t, a) ↦ elim (insert_cases t (map release_attempt r.releases)) [
      | inr (e, b) ↦ ground arith
      | inl (u, b) ↦ elim (insert_cases u (map report_attempt r.terminal_reports)) [
        | inr (e, c) ↦ ground arith
        | inl (v, c) ↦
            let (i, d, p) = insert_attempts-Distinct [] (map renewal_attempt r.renewals) t a in
            let (j, d', p') =
              insert_attempts-Distinct (pushed [] (map renewal_attempt r.renewals))
                (map release_attempt r.releases) u
                (ap (λ s. insert_attempts s (map release_attempt r.releases)) (sym i) ∙ b) in
            let (k, d'', p'') =
              insert_attempts-Distinct
                (pushed (pushed [] (map renewal_attempt r.renewals))
                  (map release_attempt r.releases))
                (map report_attempt r.terminal_reports) v
                (ap (λ s. insert_attempts s (map report_attempt r.terminal_reports)) (sym j) ∙ c) in
            (
              (Distinct-append [] (map renewal_attempt r.renewals) _).1
                  (d, (Distinct-append _ (map release_attempt r.releases) _).1 (d', d'')),
              (All-append (map renewal_attempt r.renewals) _).1
                  (p, (All-append (map release_attempt r.releases) _).1 (p', p'')),
            )
      ]
    ]
  ],
  λ (d, p).
      let (d1, d') = (Distinct-append [] (map renewal_attempt r.renewals) _).0 d in
      let (d2, d3) = (Distinct-append _ (map release_attempt r.releases) _).0 d' in
      let (p1, p') = (All-append (map renewal_attempt r.renewals) _).0 p in
      let (p2, p3) = (All-append (map release_attempt r.releases) _).0 p' in
      ground (
        arith,
        insert_attempts_lem _ (map renewal_attempt r.renewals) d1 p1,
        insert_attempts_lem _ (map release_attempt r.releases) d2 p2,
        insert_attempts_lem _ (map report_attempt r.terminal_reports) d3 p3,
      ),
)
