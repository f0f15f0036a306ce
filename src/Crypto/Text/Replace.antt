-- ===== src/Crypto/Text/Replace.antt =====
-- Replacing a character of a string, and taking that back.
use encryptedfs.Prelude.{ℕ, ◌≡◌, refl, ap₂, ◌≢◌, List, [], ◌∷◌, arith, ◌==◌, if◌then◌else◌}

abbrev pub replace_one : ℕ → ℕ → ℕ → ℕ
replace_one old new x = if x == old then new else x

abbrev pub replace : ℕ → ℕ → List ℕ → List ℕ
replace old new [] = []
replace old new (x ∷ xs) = replace_one old new x ∷ replace old new xs

-- The character `c` does not occur.
abbrev pub Free : ℕ → List ℕ → Type 0
Free c [] = Unit
Free c (x ∷ xs) = (x ≢ c) × Free c xs

pub replace-Free : (old new : ℕ) (xs : List ℕ) → new ≢ old → Free old (replace old new xs)
replace-Free old new [] ne = tt
replace-Free old new (x ∷ xs) ne = (ground arith, replace-Free old new xs ne)

-- A character that did not occur marks where the other one was.
pub replace-replace : (a b : ℕ) (xs : List ℕ) → Free b xs → replace b a (replace a b xs) ≡ xs
replace-replace a b [] free = refl
replace-replace a b (x ∷ xs) (ne, free) =
    ap₂ (λ y ys. y ∷ ys) (ground arith) (replace-replace a b xs free)
