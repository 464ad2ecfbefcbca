-- ===== src/Prelude/Exec.antt =====
-- Errors as values, and actions on a state that may fail: what was written before a failure stays
-- written, so the state comes back beside the error too.
use mathlib.Core.Path.{◌≡◌, refl}
use mathlib.Core.Bool.{Bool, true, false}

pub data Result {ℓ} (E A : Type ℓ) : Type ℓ where
  ok : A → Result E A
  err : E → Result E A

abbrev pub and_then {ℓ} : {E A B : Type ℓ} → Result E A → (A → Result E B) → Result E B
and_then (ok a) f = f a
and_then (err e) f = err e

-- `if test { return err }`
abbrev pub refuse_if {ℓ} : {E : Type ℓ} → Bool → E → Result E (Unit {ℓ})
refuse_if true e = err e
refuse_if false e = ok tt

abbrev pub Exec {ℓ} : Type ℓ → Type ℓ → Type ℓ → Type ℓ
Exec E S A = S → Result E A × S

module _ {ℓ} {E S A B : Type ℓ} where
  abbrev pub continue : Result E A → (A → Exec E S B) → Exec E S B
  continue (ok a) f s = f a s
  continue (err c) f s = (err c, s)

  infixl 10 ◌>>=◌ ◌>>◌
  abbrev pub ◌>>=◌ : Exec E S A → (A → Exec E S B) → Exec E S B
  ◌>>=◌ m f s = let (r, s') = m s in continue r f s'

  abbrev pub ◌>>◌ : Exec E S A → Exec E S B → Exec E S B
  m >> n = m >>= λ _. n

abbrev pub pure {ℓ} : {E S A : Type ℓ} → A → Exec E S A
pure a s = (ok a, s)

abbrev pub raise {ℓ} : {E S A : Type ℓ} → E → Exec E S A
raise c s = (err c, s)

abbrev pub lift {ℓ} : {E S A : Type ℓ} → Result E A → Exec E S A
lift r s = (r, s)

abbrev pub gets {ℓ} : {E S A : Type ℓ} → (S → A) → Exec E S A
gets f s = (ok (f s), s)

abbrev pub modify {ℓ} : {E S : Type ℓ} → (S → S) → Exec E S (Unit {ℓ})
modify f s = (ok tt, f s)

pub Result-cases {ℓ} :
    {E A : Type ℓ} (P : Result E A → Type ℓ) (r : Result E A)
    → ((a : A) → r ≡ ok a → P (ok a))
    → ((e : E) → r ≡ err e → P (err e))
    → P r
Result-cases P (ok a) f g = f a refl
Result-cases P (err e) f g = g e refl
