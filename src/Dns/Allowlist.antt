-- ===== src/Dns/Allowlist.antt =====
-- crates/ne-dns-filter/src/lib.rs: the allowlist.
use ne_enclave.Common.{ℕ, Bool, ◌||◌, Option, none, some, List, [], ◌∷◌, any, nat_eq, if◌then◌else◌}
use ne_enclave.Text.{
  Text, codes, same_text, is_empty, strip_prefix, ends_with, trim, trim_end_matches,
}

-- What the filter uses of Unicode: `str::to_lowercase`, and `str::from_utf8` as the code points of
-- valid UTF-8.
pub record Unicode : Type 0 where
  pub to_lowercase : Text → Text
  pub from_utf8 : List ℕ → Option Text

-- The set of normalized patterns, without repetition.
pub record Allowlist : Type 0 where
  pub normalized : List Text

abbrev pub strip_star : Text → Text
strip_star s = elim (strip_prefix (codes "*.") s) [ none ↦ s | some rest ↦ rest ]

-- `BTreeSet::insert`.
abbrev pub insert_text : Text → List Text → List Text
insert_text s set = if any (same_text s) set then set else s ∷ set

module _ (u : Unicode) where
  unfoldable pub normalize : Text → Text
  normalize s = u.to_lowercase (trim_end_matches (λ c. nat_eq c b'.') (strip_star (trim s)))

  -- The loop of `Allowlist::new`.
  unfoldable pub insert_patterns : List Text → List Text → List Text
  insert_patterns [] set = set
  insert_patterns (raw ∷ patterns) set =
      insert_patterns patterns
        (if is_empty (normalize raw) then set else insert_text (normalize raw) set)

  unfoldable pub new : List Text → Allowlist
  unfolding insert_patterns
  new patterns = record { normalized = insert_patterns patterns [] }

  unfoldable pub matches : Allowlist → Text → Bool
  matches self qname =
      any (λ allow. same_text (normalize qname) allow || ends_with (b'.' ∷ allow) (normalize qname))
        self.normalized
