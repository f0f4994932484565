-- ===== src/Guest/Confinement.antt =====
-- Where a path that crates/ne-guest-agent/src/files.rs accepts leads from a directory.
use mathlib.Core.List.{append_assoc, append-nil}
use ne_enclave.Common.{
  ℕ, false, ◌≡◌, refl, sym, ap, ◌∙◌, inl, inr, arith, List, [], ◌∷◌, ◌++◌, All, any, nat_eq, ok,
  if◌then◌else◌, Bool-cases, subst,
}
use ne_enclave.Text.{Text, codes, same_text, is_empty}
use ne_enclave.Guest.Paths.{split, onto_first, is_dots, push_components, validate_relative_path}

-- The file system's walk by names: `.` stays, `..` goes up, and another name goes down. Where there is
-- nothing above, `..` stays too.
abbrev pub parent : List Text → List Text
parent [] = []
parent (a ∷ []) = []
parent (a ∷ b ∷ dir) = a ∷ parent (b ∷ dir)

abbrev pub enter : List Text → Text → List Text
enter dir name =
    if same_text name (codes "..")
    then parent dir
    else if same_text name (codes ".")
    then dir
    else dir ++ name ∷ []

unfoldable pub walk : List Text → List Text → List Text
walk dir [] = dir
walk dir (name ∷ path) = walk (enter dir name) path

-- The path as it was written.
abbrev pub join : ℕ → List Text → Text
join sep [] = []
join sep (s ∷ []) = s
join sep (s ∷ t ∷ parts) = s ++ sep ∷ join sep (t ∷ parts)

pub record IsName (name : Text) : Type 0 where
  pub nonempty : is_empty name ≡ false
  pub no_dots : is_dots name ≡ false
  pub no_null : any (λ c. nat_eq c 0) name ≡ false

push_components_lem :
    (out parts result : List Text)
    → push_components out parts ≡ ok result
    → (result ≡ out ++ parts) × All IsName parts
unfolding push_components
push_components_lem out [] result h = (ground (arith, append-nil out), tt)
push_components_lem out (c ∷ parts) result h =
    let (e, names) = push_components_lem (out ++ c ∷ []) parts result (ground arith) in
    (
      e ∙ append_assoc out (c ∷ []) parts,
      (record { nonempty = ground arith; no_dots = ground arith; no_null = ground arith }, names),
    )

walk_down : (dir path : List Text) → All IsName path → walk dir path ≡ dir ++ path
unfolding walk
walk_down dir [] names = sym (append-nil dir)
walk_down dir (c ∷ path) names =
    ap (λ d. walk d path) (ground (arith, names.0.no_dots))
    ∙ walk_down (dir ++ c ∷ []) path names.1
    ∙ append_assoc dir (c ∷ []) path

join-onto_first :
    (sep c : ℕ) (part : Text) (parts : List Text)
    → join sep (onto_first c (part ∷ parts)) ≡ c ∷ join sep (part ∷ parts)
join-onto_first sep c part [] = refl
join-onto_first sep c part (p ∷ parts) = refl

split_nonempty :
    (sep : ℕ) (s : Text) → (part : Text) × (parts : List Text) × (split sep s ≡ part ∷ parts)
unfolding split
split_nonempty sep [] = ([], [], refl)
split_nonempty sep (c ∷ s) =
    let (part, parts, e) = split_nonempty sep s in
    elim (Bool-cases (nat_eq c sep)) [
      | inl a ↦ ([], split sep s, ground arith)
      | inr a ↦ (c ∷ part, parts, ground arith)
    ]

join-split : (sep : ℕ) (s : Text) → join sep (split sep s) ≡ s
unfolding split
join-split sep [] = refl
join-split sep (c ∷ s) =
    let (part, parts, e) = split_nonempty sep s in
    elim (Bool-cases (nat_eq c sep)) [
      | inl a ↦ ground (arith, join-split sep s)
      | inr a ↦ ground (arith, join-split sep s, join-onto_first sep c part parts)
    ]

-- A path that is accepted is the text that was given, cut at its slashes; every component is a name,
-- not empty, not a dot or two, and without a null byte; and from any directory, where no name on the
-- way is a symbolic link, the path leads below that directory.
pub validate_relative_path-IsName :
    (raw : Text) (path dir : List Text)
    → validate_relative_path raw ≡ ok path
    → (join b'/' path ≡ raw) × All IsName path × (walk dir path ≡ dir ++ path)
unfolding validate_relative_path
validate_relative_path-IsName raw path dir h =
    let (e, names) = push_components_lem [] (split b'/' raw) path (ground arith) in
    (
      ap (join b'/') e ∙ join-split b'/' raw,
      subst (All IsName) (sym e) names,
      walk_down dir path (subst (All IsName) (sym e) names),
    )
