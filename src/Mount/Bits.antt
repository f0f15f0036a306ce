-- ===== src/Mount/Bits.antt =====
-- The bits of a number, and `bit_and` by them.
use native.Mathlib.Numerals.{unary_clauses}
use encryptedfs.Prelude.{
  ℕ, zero, suc, ◌+◌, ◌*◌, ◌/◌, ◌%◌, ◌^◌, ◌≤◌, ◌<◌, ◌≡◌, refl, ap, ◌∙◌, arith, subst,
}
use encryptedfs.Mount.{bit_and}

-- The bit at a place.
unfoldable pub bit : ℕ → ℕ → ℕ
bit zero x = x % 2
bit (suc i) x = bit i (x / 2)

-- The product of two bits.
product_le : (a b : ℕ) → b < 2 → a * b ≤ a
product_le a zero h = omega arith
product_le a (suc zero) h = omega arith
product_le a (suc (suc b)) h = absurd (omega arith)

product_min : (a b : ℕ) → a < 2 → a ≤ b → b < 2 → a * b ≡ a
product_min a zero g le h = omega arith
product_min a (suc zero) g le h = omega arith
product_min a (suc (suc b)) g le h = absurd (omega arith)

min_product : (a b : ℕ) → a < 2 → b < 2 → a ≤ a * b → a ≤ b
min_product a zero g h le = omega arith
min_product a (suc zero) g h le = omega arith
min_product a (suc (suc b)) g h le = absurd (omega arith)

pub bit_and_le : (w x y : ℕ) → bit_and w x y ≤ x
unfolding bit_and
bit_and_le zero x y = omega arith
bit_and_le (suc w) x y =
    let low : (x % 2) * (y % 2) ≤ x % 2 = product_le (x % 2) (y % 2) (omega arith) in
    let high : bit_and w (x / 2) (y / 2) ≤ x / 2 = bit_and_le w (x / 2) (y / 2) in
    total ((x % 2) * (y % 2)) (bit_and w (x / 2) (y / 2)) low high
  where
    total : (p q : ℕ) → p ≤ x % 2 → q ≤ x / 2 → p + 2 * q ≤ x
    total p q low high = omega arith

half_below : (w x : ℕ) → x < 2 ^ suc w → x / 2 < 2 ^ w
half_below w x h =
    let double : 2 ^ suc w ≡ 2 * 2 ^ w = simp unary_clauses (omega arith) in
    halved (2 ^ w) (subst (λ k. x < k) double h)
  where
    halved : (k : ℕ) → x < 2 * k → x / 2 < k
    halved k l = omega arith

zero_bit : (i : ℕ) → bit i 0 ≡ 0
unfolding bit
zero_bit zero = refl
zero_bit (suc i) = zero_bit i

-- If the bits of `x` and `y` make up `x`, then `y` has all bits of `x`.
pub covered : (w x y : ℕ) → x < 2 ^ w → x ≤ bit_and w x y → (i : ℕ) → bit i x ≤ bit i y
unfolding bit bit_and
covered zero x y h e i =
    let none_set : bit i x ≡ 0 = ap (bit i) {x = x} {y = 0} (omega arith) ∙ zero_bit i in
    rw none_set (omega arith)
covered (suc w) x y h e i =
    let p : ℕ = (x % 2) * (y % 2) in
    let q : ℕ = bit_and w (x / 2) (y / 2) in
    let low : p ≤ x % 2 = product_le (x % 2) (y % 2) (omega arith) in
    let high : q ≤ x / 2 = bit_and_le w (x / 2) (y / 2) in
    let (all_low, all_high) = parts p q low high e in
    by_place i (min_product (x % 2) (y % 2) (omega arith) (omega arith) all_low)
      (covered w (x / 2) (y / 2) (half_below w x h) all_high)
  where
    parts : (p q : ℕ) → p ≤ x % 2 → q ≤ x / 2 → x ≤ p + 2 * q → (x % 2 ≤ p) × (x / 2 ≤ q)
    parts p q low high e = (omega arith, omega arith)

    by_place :
        (i : ℕ) → x % 2 ≤ y % 2 → ((j : ℕ) → bit j (x / 2) ≤ bit j (y / 2)) → bit i x ≤ bit i y
    by_place zero low high = low
    by_place (suc i) low high = high i

-- And the other way round.
pub covers : (w x y : ℕ) → x < 2 ^ w → ((i : ℕ) → bit i x ≤ bit i y) → bit_and w x y ≡ x
unfolding bit bit_and
covers zero x y h e = omega arith
covers (suc w) x y h e =
    let half : x / 2 < 2 ^ w = half_below w x h in
    let high : bit_and w (x / 2) (y / 2) ≡ x / 2 = covers w (x / 2) (y / 2) half (λ i. e (suc i)) in
    let low : (x % 2) * (y % 2) ≡ x % 2 =
      product_min (x % 2) (y % 2) (omega arith) (e zero) (omega arith) in
    total ((x % 2) * (y % 2)) (bit_and w (x / 2) (y / 2)) low high
  where
    total : (p q : ℕ) → p ≡ x % 2 → q ≡ x / 2 → p + 2 * q ≡ x
    total p q low high = omega arith
