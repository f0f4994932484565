-- ===== src/Text.antt =====
-- The standard library's operations on `str` that the program uses, over lists of code points.
pub mod Laws
use ne_enclave.Common.{
  ℕ, zero, suc, ◌+◌, ◌-◌, ◌*◌, ◌≤◌, ◌<◌, Bool, true, false, ◌&&◌, ◌||◌, ◌≡◌, ◌↔◌, refl, String,
  Option, none, some, List, [], ◌∷◌, ◌++◌, arith, leb, ltb, nat_eq, if◌then◌else◌, Eq, ◌==◌, ap,
  length,
}
use Prim.Native.Char.{code}

abbrev pub Text : Type 0
Text = List ℕ

-- The code points of a literal.
abbrev pub codes : String → Text
codes String.[] = []
codes (String.◌∷◌ first rest) = code first ∷ codes rest

abbrev pub same_text : Text → Text → Bool
same_text [] [] = true
same_text (a ∷ s) (b ∷ t) = nat_eq a b && same_text s t
same_text _ _ = false

pub same_text_iff : (s t : Text) → (same_text s t ≡ true) ↔ (s ≡ t)
same_text_iff [] [] = ground arith
same_text_iff [] (b ∷ t) = ground arith
same_text_iff (a ∷ s) [] = ground arith
same_text_iff (a ∷ s) (b ∷ t) = ground (arith, same_text_iff s t)

instance abbrev pub text_eq : Eq Text
text_eq = record { beq = same_text; beq_iff = same_text_iff }

abbrev pub is_empty : Text → Bool
is_empty [] = true
is_empty (c ∷ s) = false

unfoldable pub strip_prefix : Text → Text → Option Text
strip_prefix [] s = some s
strip_prefix (p ∷ prefix) [] = none
strip_prefix (p ∷ prefix) (c ∷ s) = if nat_eq p c then strip_prefix prefix s else none

abbrev pub prepend : ℕ → Option Text → Option Text
prepend c none = none
prepend c (some s) = some (c ∷ s)

unfoldable pub strip_suffix : Text → Text → Option Text
strip_suffix suffix [] = if same_text [] suffix then some [] else none
strip_suffix suffix (c ∷ s) =
    if same_text (c ∷ s) suffix then some [] else prepend c (strip_suffix suffix s)

abbrev pub ends_with : Text → Text → Bool
ends_with suffix s = elim (strip_suffix suffix s) [ none ↦ false | some _ ↦ true ]

unfoldable pub trim_start_matches : (ℕ → Bool) → Text → Text
trim_start_matches p [] = []
trim_start_matches p (c ∷ s) = if p c then trim_start_matches p s else c ∷ s

abbrev pub cons_unless : Bool → ℕ → Text → Text
cons_unless true c [] = []
cons_unless false c [] = c ∷ []
cons_unless b c (d ∷ s) = c ∷ d ∷ s

unfoldable pub trim_end_matches : (ℕ → Bool) → Text → Text
trim_end_matches p [] = []
trim_end_matches p (c ∷ s) = cons_unless (p c) c (trim_end_matches p s)

-- `char::is_whitespace`: the code points with the property White_Space.
unfoldable pub is_whitespace : ℕ → Bool
is_whitespace c =
    (leb 9 c && leb c 13)
    || nat_eq c 32
    || nat_eq c 0x85
    || nat_eq c 0xa0
    || nat_eq c 0x1680
    || (leb 0x2000 c && leb c 0x200a)
    || nat_eq c 0x2028
    || nat_eq c 0x2029
    || nat_eq c 0x202f
    || nat_eq c 0x205f
    || nat_eq c 0x3000

unfoldable pub trim : Text → Text
unfolding is_whitespace trim_start_matches trim_end_matches
trim s = trim_end_matches is_whitespace (trim_start_matches is_whitespace s)

-- `s.split(c).next()`: what stands before the first `c`.
unfoldable pub before : ℕ → Text → Text
before c [] = []
before c (d ∷ s) = if nat_eq d c then [] else d ∷ before c s

abbrev pub prepend_first : ℕ → Option (Text × Text) → Option (Text × Text)
prepend_first c none = none
prepend_first c (some (s, t)) = some (c ∷ s, t)

unfoldable pub split_once : ℕ → Text → Option (Text × Text)
split_once c [] = none
split_once c (d ∷ s) = if nat_eq d c then some ([], s) else prepend_first d (split_once c s)

abbrev pub to_ascii_lower : ℕ → ℕ
to_ascii_lower c = if leb b'A' c && leb c b'Z' then c + 32 else c

unfoldable pub to_ascii_lowercase : Text → Text
to_ascii_lowercase [] = []
to_ascii_lowercase (c ∷ s) = to_ascii_lower c ∷ to_ascii_lowercase s

abbrev pub is_ascii_digit : ℕ → Bool
is_ascii_digit c = leb b'0' c && leb c b'9'

abbrev pub is_ascii_alphanumeric : ℕ → Bool
is_ascii_alphanumeric c =
    is_ascii_digit c || (leb b'A' c && leb c b'Z') || (leb b'a' c && leb c b'z')

-- The digits of an unsigned integer below `bound`, read from the left: each step is a checked
-- multiplication and a checked addition.
unfoldable pub parse_digits : ℕ → ℕ → Text → Option ℕ
parse_digits bound n [] = some n
parse_digits bound n (c ∷ s) =
    if is_ascii_digit c && ltb (n * 10 + (c - b'0')) bound
    then parse_digits bound (n * 10 + (c - b'0')) s
    else none

-- `str::parse` of an unsigned integer: an optional `+`, then at least one digit.
unfoldable pub parse_unsigned : ℕ → Text → Option ℕ
unfolding parse_digits
parse_unsigned bound [] = none
parse_unsigned bound (c ∷ []) = if nat_eq c b'+' then none else parse_digits bound 0 (c ∷ [])
parse_unsigned bound (c ∷ d ∷ s) =
    if nat_eq c b'+' then parse_digits bound 0 (d ∷ s) else parse_digits bound 0 (c ∷ d ∷ s)

abbrev pub prepend_to_first : ℕ → List Text → List Text
prepend_to_first c [] = (c ∷ []) ∷ []
prepend_to_first c (t ∷ ts) = (c ∷ t) ∷ ts

-- `str::split` at a character.
unfoldable pub split : ℕ → Text → List Text
split c [] = [] ∷ []
split c (d ∷ s) = if nat_eq d c then [] ∷ split c s else prepend_to_first d (split c s)

-- `starts_with` and `ends_with` of one character.
abbrev pub starts_with_char : ℕ → Text → Bool
starts_with_char c [] = false
starts_with_char c (d ∷ s) = nat_eq d c

abbrev pub ends_with_char : ℕ → Text → Bool
ends_with_char c [] = false
ends_with_char c (d ∷ []) = nat_eq d c
ends_with_char c (d ∷ e ∷ s) = ends_with_char c (e ∷ s)
