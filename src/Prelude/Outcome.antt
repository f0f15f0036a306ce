-- ===== src/Prelude/Outcome.antt =====
-- Fallible calls and calls on a mutable object: the object comes back after an error too, since
-- what was written before a `?` stays written.
use mathlib.Core.Bool.{Bool, true, false}

pub data Result {ℓ κ} (E : Type ℓ) (A : Type κ) : Type (ℓ ⊔ κ) where
  ok : A → Result E A
  err : E → Result E A

-- A call on an object of type `S`, which ends with a value or an error.
abbrev pub Exec {ℓ} : Type ℓ → Type ℓ → Type ℓ → Type ℓ
Exec E S A = S → Result E A × S

module _ {ℓ} {E S A : Type ℓ} where
  abbrev pub pure : A → Exec E S A
  pure a s = (ok a, s)

  abbrev pub raise : E → Exec E S A
  raise e s = (err e, s)

  abbrev pub gets : (S → A) → Exec E S A
  gets f s = (ok (f s), s)

  abbrev pub lift : Result E A → Exec E S A
  lift r s = (r, s)

module _ {ℓ} {E S A B : Type ℓ} where
  abbrev pub continue : Result E A → (A → Exec E S B) → Exec E S B
  continue (ok a) f s = f a s
  continue (err e) f s = (err e, s)

infixl 5 ◌>>=◌ ◌>>◌
abbrev pub ◌>>=◌ {ℓ} : {E S A B : Type ℓ} → Exec E S A → (A → Exec E S B) → Exec E S B
◌>>=◌ m f s = let (r, s') = m s in continue r f s'

abbrev pub ◌>>◌ {ℓ} : {E S A B : Type ℓ} → Exec E S A → Exec E S B → Exec E S B
m >> k = m >>= λ _. k

abbrev pub modify {ℓ} : {E S : Type ℓ} → (S → S) → Exec E S (Unit {ℓ})
modify f s = (ok tt, f s)

-- An early `return Err(e)` under a test.
abbrev pub raise_if {ℓ} : {E S : Type ℓ} → Bool → E → Exec E S (Unit {ℓ})
raise_if true e s = (err e, s)
raise_if false e s = (ok tt, s)

-- A step that is made only under a test.
abbrev pub when {ℓ} : {E S : Type ℓ} → Bool → Exec E S (Unit {ℓ}) → Exec E S (Unit {ℓ})
when true m = m
when false m = pure tt
