-- ===== src/Dns/Query.antt =====
-- `parse_query` of crates/ne-dns-filter/src/lib.rs: the questions that it reads, and the fuel of its
-- loop.
use Prim.Native.Nat.{bit_and}
use native.Mathlib.Numerals.{add-one}
use mathlib.Core.List.{append_assoc}
use ne_enclave.Common.{
  Option, ◌⊎◌, ◌||◌, Bool-cases, ltb, ap, ℕ, zero, suc, ◌+◌, ◌*◌, ◌≤◌, ◌<◌, true, ◌≡◌, refl, ◌∙◌,
  none, some, List, [], ◌∷◌, ◌++◌, All, length, length-append, take-append, get_elem?, drop, arith,
  nat_eq, Option-cases, inl, inr, subst, all_below, all_below_sound,
}
use ne_enclave.Text.{Text}
use ne_enclave.Dns.Allowlist.{Unicode}
use ne_enclave.Dns.Wire.{Message, slice, push_label, parse_labels, parse_query, be16_at, read_qtype}

get_elem?-append :
    (pre : Message) (x : ℕ) (ys : Message) → get_elem? (pre ++ x ∷ ys) (length pre) ≡ some x
get_elem?-append [] x ys = refl
get_elem?-append (p ∷ pre) x ys = get_elem?-append pre x ys

drop-append : (pre : Message) (x : ℕ) (ys : Message) → drop (length pre + 1) (pre ++ x ∷ ys) ≡ ys
drop-append pre x ys = rw add-one (go pre)
  where
    go : (l : Message) → drop (suc (length l)) (l ++ x ∷ ys) ≡ ys
    go [] = refl
    go (p ∷ l) = go l

get_elem?-append_next :
    (pre : Message) (x y : ℕ) (ys : Message)
    → get_elem? (pre ++ x ∷ y ∷ ys) (length pre + 1) ≡ some y
get_elem?-append_next pre x y ys = rw add-one (go pre)
  where
    go : (l : Message) → get_elem? (l ++ x ∷ y ∷ ys) (suc (length l)) ≡ some y
    go [] = refl
    go (p ∷ l) = go l

get_elem?-beyond : (buf : Message) (pos : ℕ) → length buf ≤ pos → get_elem? buf pos ≡ none
get_elem?-beyond [] pos h = refl
get_elem?-beyond (b ∷ buf) zero h = absurd (omega arith)
get_elem?-beyond (b ∷ buf) (suc pos) h = get_elem?-beyond buf pos (omega arith)

-- A label as it stands in a message, and its text.
abbrev pub Label : Type 0
Label = Message × Text

-- A name on the wire.
abbrev pub encode : List Label → Message
encode [] = 0 ∷ []
encode ((bytes, text) ∷ labels) = length bytes ∷ (bytes ++ encode labels)

-- Its dotted form, behind what is read already.
abbrev pub dotted : Text → List Label → Text
dotted name [] = name
dotted name ((bytes, text) ∷ labels) = dotted (push_label name text) labels

-- A length below 64 has no bit of a compression pointer.
length_table : all_below 64 (λ n. nat_eq (bit_and n 0xc0) 0) ≡ true
unfolding all_below
length_table = refl

small_length : (n : ℕ) → n < 64 → nat_eq (bit_and n 0xc0) 0 ≡ true
small_length n h = all_below_sound 64 (λ k. nat_eq (bit_and k 0xc0) 0) n length_table h

module _ (u : Unicode) where
  -- A label that DNS allows, whose bytes are the UTF-8 of its text.
  pub record IsLabel (l : Label) : Type 0 where
    pub nonempty : 1 ≤ length l.0
    pub short : length l.0 ≤ 63
    pub utf8 : u.from_utf8 l.0 ≡ some l.1

  -- One round of the loop at a label.
  parse_labels-label :
      (fuel : ℕ) (bytes text : Message) (pre tail : Message) (name : Text)
      → IsLabel (bytes, text)
      → parse_labels u (suc fuel) (pre ++ length bytes ∷ (bytes ++ tail)) name (length pre)
        ≡ parse_labels u fuel
            (pre ++ length bytes ∷ (bytes ++ tail))
            (push_label name text)
            (length pre + 1 + length bytes)
  unfolding parse_labels
  parse_labels-label fuel bytes text pre tail name l = ground (
    arith,
    get_elem?-append pre (length bytes) (bytes ++ tail),
    small_length (length bytes),
    drop-append pre (length bytes) (bytes ++ tail),
    take-append bytes tail,
    length-append pre (length bytes ∷ (bytes ++ tail)),
    length-append bytes tail,
  )

  parse_labels-end :
      (fuel : ℕ) (pre tail : Message) (name : Text)
      → parse_labels u (suc fuel) (pre ++ 0 ∷ tail) name (length pre)
        ≡ some (some (name, length pre + 1))
  unfolding parse_labels
  parse_labels-end fuel pre tail name = ground (arith, get_elem?-append pre 0 tail)

  -- The loop reads a whole name, wherever it stands.
  parse_labels-encode :
      (fuel : ℕ) (labels : List Label) (pre tail : Message) (name : Text)
      → All IsLabel labels
      → length labels < fuel
      → parse_labels u fuel (pre ++ (encode labels ++ tail)) name (length pre)
        ≡ some (some (dotted name labels, length pre + length (encode labels)))
  parse_labels-encode zero labels pre tail name v h = absurd (omega arith)
  parse_labels-encode (suc fuel) [] pre tail name v h = parse_labels-end fuel pre tail name
  parse_labels-encode (suc fuel) ((bytes, text) ∷ labels) pre tail name v h =
      let ih =
        parse_labels-encode fuel labels (pre ++ length bytes ∷ bytes) tail (push_label name text)
          v.1 (omega arith) in
      rw (append_assoc bytes (encode labels) tail) (
        parse_labels-label fuel bytes text pre (encode labels ++ tail) name v.0
        ∙ ground (
          arith,
          ih,
          append_assoc pre (length bytes ∷ bytes) (encode labels ++ tail),
          length-append pre (length bytes ∷ bytes),
          length-append bytes (encode labels),
        ))

  length-le-encode : (labels : List Label) → length labels ≤ length (encode labels)
  length-le-encode [] = omega arith
  length-le-encode ((bytes, text) ∷ labels) =
      omega (arith, length-append bytes (encode labels), length-le-encode labels)

  read_qtype-append :
      (pre : Message) (t0 t1 c0 c1 : ℕ) (rest : Message) (name : Text)
      → read_qtype u (pre ++ t0 ∷ t1 ∷ c0 ∷ c1 ∷ rest) (some (name, length pre))
        ≡ some (name, 256 * t0 + t1)
  read_qtype-append pre t0 t1 c0 c1 rest name = ground (
    arith,
    get_elem?-append pre t0 (t1 ∷ c0 ∷ c1 ∷ rest),
    get_elem?-append_next pre t0 t1 (c0 ∷ c1 ∷ rest),
    length-append pre (t0 ∷ t1 ∷ c0 ∷ c1 ∷ rest),
  )

  -- `parse_query` where its loop succeeds.
  parse_query-labels :
      (buf : Message) (q : ℕ) (r : Text × ℕ)
      → 12 ≤ length buf
      → be16_at buf 4 ≡ some q
      → 1 ≤ q
      → parse_labels u (suc (length buf)) buf [] 12 ≡ some (some r)
      → parse_query u buf ≡ read_qtype u buf (some r)
  unfolding parse_query
  parse_query-labels buf q r long count positive h = ground arith

  -- A message with a header whose question count is not zero, then a name of labels of 1 to 63 bytes
  -- of valid UTF-8, a query type, a class and anything else, parses to the labels' texts joined by
  -- dots and to the query type.
  pub parse_query-encode :
      (i0 i1 f0 f1 q0 q1 a0 a1 n0 n1 r0 r1 : ℕ) (labels : List Label) (t0 t1 c0 c1 : ℕ)
      (rest : Message)
      → 1 ≤ 256 * q0 + q1
      → All IsLabel labels
      → parse_query u (
          i0
          ∷ i1
          ∷ f0
          ∷ f1
          ∷ q0
          ∷ q1
          ∷ a0
          ∷ a1
          ∷ n0
          ∷ n1
          ∷ r0
          ∷ r1
          ∷ (encode labels ++ t0 ∷ t1 ∷ c0 ∷ c1 ∷ rest))
        ≡ some (dotted [] labels, 256 * t0 + t1)
  parse_query-encode i0 i1 f0 f1 q0 q1 a0 a1 n0 n1 r0 r1 labels t0 t1 c0 c1 rest q v =
      let header : Message = i0 ∷ i1 ∷ f0 ∷ f1 ∷ q0 ∷ q1 ∷ a0 ∷ a1 ∷ n0 ∷ n1 ∷ r0 ∷ r1 ∷ [] in
      let after : Message = t0 ∷ t1 ∷ c0 ∷ c1 ∷ rest in
      parse_query-labels (header ++ (encode labels ++ after)) (256 * q0 + q1)
        (dotted [] labels, 12 + length (encode labels)) (omega arith) refl q
        (parse_labels-encode (suc (length (header ++ (encode labels ++ after)))) labels header after
          [] v (omega (arith, length-le-encode labels, length-append (encode labels) after)))
      ∙ subst
          (λ p.
            read_qtype u (header ++ (encode labels ++ after)) (some (dotted [] labels, p))
            ≡ some (dotted [] labels, 256 * t0 + t1))
          (length-append header (encode labels))
          (read_qtype-append (header ++ encode labels) t0 t1 c0 c1 rest (dotted [] labels))

  -- One round: it returns, whatever the fuel, or goes on behind a label.
  round-cases :
      (buf : Message) (name : Text) (pos : ℕ)
      → ((r : Option (Text × ℕ)) × ((fuel : ℕ) → parse_labels u (suc fuel) buf name pos ≡ some r))
        ⊎ ((label : Text) × (len : ℕ) × (pos + 1 + len ≤ length buf)
            × ((fuel : ℕ)
                → parse_labels u (suc fuel) buf name pos
                  ≡ parse_labels u fuel buf (push_label name label) (pos + 1 + len)))
  unfolding parse_labels
  round-cases buf name pos = elim (Option-cases (get_elem? buf pos)) [
    | inl e ↦ inl (none, λ fuel. rw (e, parse_labels) refl)
    | inr (len, e) ↦ elim (Bool-cases (nat_eq len 0)) [
      | inl zero_length ↦ inl (some (name, pos + 1), λ fuel. ground arith)
      | inr positive ↦ elim (Bool-cases (nat_eq (bit_and len 0xc0) 0)) [
        | inr pointer ↦ inl (none, λ fuel. ground arith)
        | inl plain ↦ elim (Bool-cases (ltb 63 len || ltb (length buf) (pos + 1 + len))) [
          | inl long ↦ inl (none, λ fuel. ground arith)
          | inr fits ↦ elim (Option-cases (u.from_utf8 (slice buf (pos + 1) len))) [
            | inl bad ↦ inl (none, λ fuel. ground arith)
            | inr (label, good) ↦ inr (label, len, ground arith, λ fuel. ground arith)
          ]
        ]
      ]
    ]
  ]

  -- The loop of `parse_query` returns: from any position, as many rounds as there are bytes behind it,
  -- and one more, are enough for it to find the end of the name or to give up, and further rounds
  -- change nothing.
  pub parse_labels-returns :
      (rounds more : ℕ) (buf : Message) (name : Text) (pos : ℕ)
      → length buf ≤ pos + rounds
      → (r : Option (Text × ℕ)) × (parse_labels u (suc rounds) buf name pos ≡ some r)
        × (parse_labels u (suc (rounds + more)) buf name pos ≡ some r)
  parse_labels-returns zero more buf name pos h = elim (round-cases buf name pos) [
    | inl (r, e) ↦ (r, e _, e _)
    | inr (label, len, fits, e) ↦ absurd (omega (arith, h, fits))
  ]
  parse_labels-returns (suc rounds) more buf name pos h = elim (round-cases buf name pos) [
    | inl (r, e) ↦ (r, e _, e _)
    | inr (label, len, fits, e) ↦
        let (r, now, later) =
          parse_labels-returns rounds more buf (push_label name label) (pos + 1 + len)
            (omega (arith, h)) in
        (
          r,
          e _ ∙ now,
          e _
              ∙ ap (λ n. parse_labels u n buf (push_label name label) (pos + 1 + len)) (omega arith)
              ∙ later,
        )
  ]
