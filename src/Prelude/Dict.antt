-- ===== src/Prelude/Dict.antt =====
-- A `HashMap` keyed by texts, or a directory of the host by file names, as an association list.
use Prim.Native.Nat.{ℕ, suc}
use mathlib.Core.Path.{◌≡◌, refl}
use mathlib.Core.Logic.{inl, inr}
use mathlib.Core.Bool.{Bool, true, false, ◌&&◌}
use mathlib.Core.Option.{Option, none, some}
use mathlib.Core.List.{List, [], ◌∷◌}
use native.Mathlib.Omega.{arith}
use encryptedfs.Prelude.Tests.{◌==◌, if◌then◌else◌, Bool-cases}
use encryptedfs.Prelude.Lists.{length}

abbrev pub same : List ℕ → List ℕ → Bool
same [] [] = true
same [] (y ∷ ys) = false
same (x ∷ xs) [] = false
same (x ∷ xs) (y ∷ ys) = (x == y) && same xs ys

pub same_refl : (xs : List ℕ) → same xs xs ≡ true
same_refl [] = refl
same_refl (x ∷ xs) = ground (arith, same_refl xs)

pub same→eq : (xs ys : List ℕ) → same xs ys ≡ true → xs ≡ ys
same→eq [] [] h = refl
same→eq [] (y ∷ ys) h = ground arith
same→eq (x ∷ xs) [] h = ground arith
same→eq (x ∷ xs) (y ∷ ys) h = ground (arith, same→eq xs ys)

abbrev pub Dict {ℓ} : Type ℓ → Type ℓ
Dict V = List (List ℕ × V)

module _ {ℓ} {V : Type ℓ} where
  abbrev pub lookup : List ℕ → Dict V → Option V
  lookup k [] = none
  lookup k ((j, v) ∷ m) = if same j k then some v else lookup k m

  abbrev pub contains : List ℕ → Dict V → Bool
  contains k m = elim (lookup k m) [ none ↦ false | some _ ↦ true ]

  abbrev pub insert : List ℕ → V → Dict V → Dict V
  insert k v [] = (k, v) ∷ []
  insert k v ((j, w) ∷ m) = if same j k then (k, v) ∷ m else (j, w) ∷ insert k v m

  abbrev pub remove : List ℕ → Dict V → Dict V
  remove k [] = []
  remove k ((j, w) ∷ m) = if same j k then m else (j, w) ∷ remove k m

  pub lookup-insert :
      (k j : List ℕ) (v : V) (m : Dict V)
      → lookup j (insert k v m) ≡ (if same k j then some v else lookup j m)
  lookup-insert k j v [] = refl
  lookup-insert k j v ((i, w) ∷ m) = ground (
    arith,
    lookup-insert k j v m,
    same→eq i k,
    same→eq k j,
    same→eq i j,
    same_refl k,
    same_refl j,
  )

  -- Every key stands once.
  abbrev pub Distinct : Dict V → Type 0
  Distinct [] = Unit
  Distinct ((k, v) ∷ m) = (contains k m ≡ false) × Distinct m

  pub lookup-remove :
      (k j : List ℕ) (m : Dict V)
      → Distinct m
      → lookup j (remove k m) ≡ (if same k j then none else lookup j m)
  lookup-remove k j [] d = ground arith
  lookup-remove k j ((i, w) ∷ m) (one, d) = ground (
    arith,
    lookup-remove k j m d,
    same→eq i k,
    same→eq k j,
    same→eq i j,
    same_refl k,
    same_refl j,
  )

  pub insert-Distinct : (k : List ℕ) (v : V) (m : Dict V) → Distinct m → Distinct (insert k v m)
  insert-Distinct k v [] d = (refl, tt)
  insert-Distinct k v ((i, w) ∷ m) (one, d) = elim (Bool-cases (same i k)) [
    | inl z ↦ rw z (ground (arith, same→eq i k z, one), d)
    | inr z ↦
        rw z
          (ground (arith, lookup-insert k i v m, same→eq k i, same_refl k), insert-Distinct k v m d)
  ]

  pub remove-Distinct : (k : List ℕ) (m : Dict V) → Distinct m → Distinct (remove k m)
  remove-Distinct k [] d = tt
  remove-Distinct k ((i, w) ∷ m) (one, d) = elim (Bool-cases (same i k)) [
    | inl z ↦ rw z d
    | inr z ↦
        rw z
          (ground (arith, lookup-remove k i m d, same→eq k i, same_refl k), remove-Distinct k m d)
  ]

  pub length-insert :
      (k : List ℕ) (v : V) (m : Dict V)
      → length (insert k v m) ≡ (if contains k m then length m else suc (length m))
  length-insert k v [] = refl
  length-insert k v ((i, w) ∷ m) = ground (arith, length-insert k v m)

  pub length-remove :
      (k : List ℕ) (m : Dict V)
      → length m ≡ (if contains k m then suc (length (remove k m)) else length (remove k m))
  length-remove k [] = refl
  length-remove k ((i, w) ∷ m) = ground (arith, length-remove k m)
