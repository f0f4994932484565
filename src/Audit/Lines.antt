-- ===== src/Audit/Lines.antt =====
-- The lines of the file that crates/ne-supervisor/src/audit.rs appends to.
use ne_enclave.Common.{
  ℕ, ◌≡◌, refl, false, List, [], ◌∷◌, ◌++◌, All, arith, nat_eq, Bool-cases, inl, inr,
}
use ne_enclave.Audit.Event.{Bytes}
use ne_enclave.Audit.Log.{first_longer, read_lines}

-- No line is begun: the file is empty or ends with a newline.
abbrev pub IsTerminated : Bytes → Type 0
IsTerminated [] = Unit
IsTerminated (b ∷ []) = b ≡ 10
IsTerminated (b ∷ c ∷ bs) = IsTerminated (c ∷ bs)

first_longer-append :
    (b c : ℕ) (bs : Bytes) (lines : List Bytes)
    → first_longer b (read_lines (c ∷ bs) ++ lines) ≡ first_longer b (read_lines (c ∷ bs)) ++ lines
unfolding read_lines
first_longer-append b c bs lines = elim (Bool-cases (nat_eq c 10)) [
  | inl e ↦ rw (e, read_lines) refl
  | inr e ↦ rw (e, read_lines) (longer (read_lines bs))
]
  where
    longer :
        (ls : List Bytes)
        → first_longer b (first_longer c ls ++ lines) ≡ first_longer b (first_longer c ls) ++ lines
    longer [] = refl
    longer (l ∷ ls) = refl

-- What is appended to complete lines is read behind them.
pub read_lines-append :
    (file bytes : Bytes)
    → IsTerminated file
    → read_lines (file ++ bytes) ≡ read_lines file ++ read_lines bytes
unfolding read_lines
read_lines-append [] bytes h = refl
read_lines-append (b ∷ []) bytes h = ground arith
read_lines-append (b ∷ c ∷ bs) bytes h =
    ground
      (arith, read_lines-append (c ∷ bs) bytes h, first_longer-append b c bs (read_lines bytes))

abbrev pub NoNewline : Bytes → Type 0
NoNewline = All (λ b. nat_eq b 10 ≡ false)

pub read_lines-line : (line : Bytes) → NoNewline line → read_lines (line ++ 10 ∷ []) ≡ line ∷ []
unfolding read_lines
read_lines-line [] h = refl
read_lines-line (b ∷ line) h = ground (arith, read_lines-line line h.1)

pub append-IsTerminated : (file : Bytes) → IsTerminated (file ++ 10 ∷ [])
append-IsTerminated [] = refl
append-IsTerminated (b ∷ []) = refl
append-IsTerminated (b ∷ c ∷ bs) = append-IsTerminated (c ∷ bs)
