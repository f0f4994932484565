-- ===== src/Text/Laws.antt =====
-- Laws of the operations on texts.
use ne_enclave.Common.{
  ℕ, suc, ◌+◌, ◌-◌, ◌*◌, ◌<◌, false, ◌≡◌, refl, ap, Option, none, some, [], ◌∷◌, ◌++◌, arith,
  length, length-append, nat_eq, inl, inr, Bool-cases, All,
}
use ne_enclave.Text.{
  Text, same_text, same_text_iff, prepend, strip_suffix, split_once, prepend_first, parse_digits,
  parse_unsigned, to_ascii_lower, to_ascii_lowercase,
}

prepend-eq_some :
    (c : ℕ) (o : Option Text) (p : Text)
    → prepend c o ≡ some p
    → (q : Text) × (o ≡ some q) × (p ≡ c ∷ q)
prepend-eq_some c none p h = ground arith
prepend-eq_some c (some q) p h = (q, refl, ground arith)

-- What `strip_suffix` leaves, followed by the suffix, is the text.
pub strip_suffix-append : (suffix s p : Text) → strip_suffix suffix s ≡ some p → s ≡ p ++ suffix
unfolding strip_suffix
strip_suffix-append suffix [] p h = ground (arith, same_text_iff [] suffix)
strip_suffix-append suffix (c ∷ s) p h = elim (Bool-cases (same_text (c ∷ s) suffix)) [
  | inl e ↦ ground (arith, same_text_iff (c ∷ s) suffix)
  | inr e ↦
      let (q, left, eq) = prepend-eq_some c (strip_suffix suffix s) p (ground arith) in
      ground (arith, strip_suffix-append suffix s q left)
]

strip_suffix_self : (suffix : Text) → strip_suffix suffix suffix ≡ some []
unfolding strip_suffix
strip_suffix_self [] = refl
strip_suffix_self (c ∷ s) = ground (arith, same_text_iff (c ∷ s) (c ∷ s))

longer_differs : (c : ℕ) (p suffix : Text) → same_text (c ∷ (p ++ suffix)) suffix ≡ false
longer_differs c p suffix = elim (Bool-cases (same_text (c ∷ (p ++ suffix)) suffix)) [
  | inl e ↦ absurd (
      omega
        (arith, ap length ((same_text_iff (c ∷ (p ++ suffix)) suffix).0 e), length-append p suffix))
  | inr e ↦ e
]

-- A text that ends with the suffix is stripped of it.
pub strip_suffix_of_append : (p suffix : Text) → strip_suffix suffix (p ++ suffix) ≡ some p
unfolding strip_suffix
strip_suffix_of_append [] suffix = strip_suffix_self suffix
strip_suffix_of_append (c ∷ p) suffix =
    ground (arith, longer_differs c p suffix, strip_suffix_of_append p suffix)

prepend_first-eq_some :
    (c : ℕ) (o : Option (Text × Text)) (p q : Text)
    → prepend_first c o ≡ some (p, q)
    → (r : Text) × (o ≡ some (r, q)) × (p ≡ c ∷ r)
prepend_first-eq_some c none p q h = ground arith
prepend_first-eq_some c (some (r, t)) p q h = (r, ground arith, ground arith)

-- The two halves of `split_once`, with the separator between them, are the text, and the separator
-- does not stand in the first.
pub split_once_lem :
    (c : ℕ) (s p q : Text)
    → split_once c s ≡ some (p, q)
    → (s ≡ p ++ c ∷ q) × All (λ d. nat_eq d c ≡ false) p
unfolding split_once
split_once_lem c [] p q h = ground arith
split_once_lem c (d ∷ s) [] q h = elim (Bool-cases (nat_eq d c)) [
  | inl e ↦ (ground arith, tt)
  | inr e ↦
      let (r, left, eq) = prepend_first-eq_some d (split_once c s) [] q (ground arith) in
      ground arith
]
split_once_lem c (d ∷ s) (x ∷ p) q h = elim (Bool-cases (nat_eq d c)) [
  | inl e ↦ ground arith
  | inr e ↦
      let (r, left, eq) = prepend_first-eq_some d (split_once c s) (x ∷ p) q (ground arith) in
      let ih = split_once_lem c s p q (ground arith) in (ground (arith, ih.0), (ground arith, ih.1))
]

pub parse_digits-lt :
    (bound n : ℕ) (s : Text) (m : ℕ) → n < bound → parse_digits bound n s ≡ some m → m < bound
unfolding parse_digits
parse_digits-lt bound n [] m h e = ground arith
parse_digits-lt bound n (c ∷ s) m h e =
    ground (arith, parse_digits-lt bound (n * 10 + (c - b'0')) s m)

-- A parsed integer is within its type.
pub parse_unsigned-lt :
    (bound : ℕ) (s : Text) (m : ℕ) → 0 < bound → parse_unsigned bound s ≡ some m → m < bound
unfolding parse_unsigned
parse_unsigned-lt bound [] m h e = ground arith
parse_unsigned-lt bound (c ∷ []) m h e = ground (arith, parse_digits-lt bound 0 (c ∷ []) m h)
parse_unsigned-lt bound (c ∷ d ∷ s) m h e =
    ground (arith, parse_digits-lt bound 0 (d ∷ s) m h, parse_digits-lt bound 0 (c ∷ d ∷ s) m h)

pub split_once-append :
    (c : ℕ) (p q : Text) → All (λ d. nat_eq d c ≡ false) p → split_once c (p ++ c ∷ q) ≡ some (p, q)
unfolding split_once
split_once-append c [] q h = ground arith
split_once-append c (d ∷ p) q h = ground (arith, split_once-append c p q h.1)

pub to_ascii_lowercase-append :
    (s t : Text) → to_ascii_lowercase (s ++ t) ≡ to_ascii_lowercase s ++ to_ascii_lowercase t
unfolding to_ascii_lowercase
to_ascii_lowercase-append [] t = refl
to_ascii_lowercase-append (c ∷ s) t = ap (◌∷◌ (to_ascii_lower c)) (to_ascii_lowercase-append s t)

pub length-to_ascii_lowercase : (s : Text) → length (to_ascii_lowercase s) ≡ length s
unfolding to_ascii_lowercase
length-to_ascii_lowercase [] = refl
length-to_ascii_lowercase (c ∷ s) = ap suc (length-to_ascii_lowercase s)
