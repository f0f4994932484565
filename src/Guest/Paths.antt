-- ===== src/Guest/Paths.antt =====
-- crates/ne-guest-agent/src/files.rs: the check of a relative path that a caller supplies.
use ne_enclave.Common.{
  ℕ, Bool, false, ◌||◌, List, [], ◌∷◌, ◌++◌, any, nat_eq, Result, ok, err, if◌then◌else◌,
}
use ne_enclave.Text.{Text, codes, same_text, is_empty}

-- Why a path is rejected; the source has one error with a text.
pub data Rejection : Type 0 where
  empty_path absolute_path empty_component dot_segment null_byte : Rejection

-- `str::split`: the parts between the separators, one at least.
abbrev pub onto_first : ℕ → List Text → List Text
onto_first c [] = (c ∷ []) ∷ []
onto_first c (s ∷ parts) = (c ∷ s) ∷ parts

unfoldable pub split : ℕ → Text → List Text
split sep [] = [] ∷ []
split sep (c ∷ s) = if nat_eq c sep then [] ∷ split sep s else onto_first c (split sep s)

abbrev pub starts_with : ℕ → Text → Bool
starts_with c [] = false
starts_with c (d ∷ s) = nat_eq d c

abbrev pub is_dots : Text → Bool
is_dots component = same_text component (codes ".") || same_text component (codes "..")

-- The loop over the components. A path is the list of them; `push` of a component that is not
-- absolute appends it.
unfoldable pub push_components : List Text → List Text → Result Rejection (List Text)
push_components out [] = ok out
push_components out (component ∷ rest) =
    let pushed = push_components (out ++ component ∷ []) rest in
    if is_empty component
    then err empty_component
    else if is_dots component
    then err dot_segment
    else if any (λ c. nat_eq c 0) component
    then err null_byte
    else pushed

unfoldable pub validate_relative_path : Text → Result Rejection (List Text)
unfolding push_components split
validate_relative_path raw =
    if is_empty raw
    then err empty_path
    else if starts_with b'/' raw
    then err absolute_path
    else push_components [] (split b'/' raw)
