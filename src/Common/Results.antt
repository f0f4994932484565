-- ===== src/Common/Results.antt =====
-- Rust's `Result`, and stateful code that may fail: what was written before an error stays written,
-- so the state comes back beside the error too.
use mathlib.Core.Option.{Option, none, some}

pub data Result {ℓ κ} (E : Type κ) (A : Type ℓ) : Type (ℓ ⊔ κ) where
  ok : A → Result E A
  err : E → Result E A

-- `Option::ok_or`.
abbrev pub ok_or {ℓ κ} : {E : Type κ} {A : Type ℓ} → Option A → E → Result E A
ok_or none e = err e
ok_or (some a) e = ok a

-- Code over a state `S` with errors in `E`.
abbrev pub Exec : Type 0 → Type 0 → Type 0 → Type 0
Exec E S A = S → Result E A × S

module _ {E S : Type 0} where
  abbrev pub pure : {A : Type 0} → A → Exec E S A
  pure a s = (ok a, s)

  abbrev pub raise : {A : Type 0} → E → Exec E S A
  raise e s = (err e, s)

  abbrev pub lift : {A : Type 0} → Result E A → Exec E S A
  lift r s = (r, s)

  -- `ok_or(e)?` on an option.
  unfoldable pub require : {A : Type 0} → Option A → E → Exec E S A
  require none e s = (err e, s)
  require (some a) e s = (ok a, s)

  abbrev pub continue : {A B : Type 0} → Result E A → (A → Exec E S B) → Exec E S B
  continue (ok a) f s = f a s
  continue (err e) f s = (err e, s)

  infixl 10 ◌>>=◌ ◌>>◌
  abbrev pub ◌>>=◌ : {A B : Type 0} → Exec E S A → (A → Exec E S B) → Exec E S B
  ◌>>=◌ m f s = continue (m s).0 f (m s).1

  abbrev pub ◌>>◌ : {A B : Type 0} → Exec E S A → Exec E S B → Exec E S B
  m >> n = m >>= λ _. n

  abbrev pub get : Exec E S S
  get s = (ok s, s)

  abbrev pub put : S → Exec E S (Unit {0})
  put t s = (ok tt, t)

  -- What a chain leaves follows from what its two parts leave.
  module _ {A B : Type 0} (P : Result E B × S → Type 0) (Q : Result E A × S → Type 0)
      (next : A → Exec E S B) (good : (a : A) (t : S) → Q (ok a, t) → P (next a t))
      (bad : (e : E) (t : S) → Q (err e, t) → P (err e, t)) where
    continue_rule : (x : Result E A × S) → Q x → P (continue x.0 next x.1)
    continue_rule (ok a, t) q = good a t q
    continue_rule (err e, t) q = bad e t q

    pub bind_rule : (body : Exec E S A) (s : S) → Q (body s) → P ((body >>= next) s)
    bind_rule body s q = continue_rule (body s) q
