-- ===== src/Mount/Access.antt =====
-- What `check_access` permits.
use encryptedfs.Prelude.{
  ℕ, zero, suc, ◌+◌, ◌/◌, ◌%◌, ◌^◌, ◌≤◌, ◌<◌, ◌≡◌, refl, sym, ◌∙◌, subst, ◌↔◌, inl, inr, Bool, true,
  false, arith, ◌==◌, if◌then◌else◌, Bool-cases,
}
use encryptedfs.Mount.{bit_and, clear, root_missing, check_access}
use encryptedfs.Mount.Bits.{bit, covered, covers}

-- The bits of a mode that count for a caller who is not root.
abbrev pub class_of : ℕ → ℕ → ℕ → ℕ → ℕ → ℕ
class_of file_uid file_gid mode uid gid =
    if uid == file_uid then mode / 64 else if gid == file_gid then mode / 8 else mode

-- Root may do all, but execute only what someone may execute; another caller may do what each bit of
-- the class allows.
abbrev pub Permits : Bool → ℕ → ℕ → ℕ → Type 0
Permits true class mode mask = bit 0 mask ≤ bit 0 (mode / 64) + bit 0 (mode / 8) + bit 0 mode
Permits false class mode mask = (i : ℕ) → bit i mask ≤ bit i class

zero_and : (w y : ℕ) → bit_and w 0 y ≡ 0
unfolding bit_and
zero_and zero y = refl
zero_and (suc w) y = ground (arith, zero_and w (y / 2))

and_zero : (w x : ℕ) → bit_and w x 0 ≡ 0
unfolding bit_and
and_zero zero x = refl
and_zero (suc w) x = ground (arith, and_zero w (x / 2))

low_bit : (w x : ℕ) → bit_and (suc w) x 1 ≡ x % 2
unfolding bit_and
low_bit w x = ground (arith, and_zero w (x / 2))

one_and : (w y : ℕ) → bit_and (suc w) 1 y ≡ y % 2
unfolding bit_and
one_and w y = ground (arith, zero_and w (y / 2))

-- Clearing in a single bit.
clear_one : (b y : ℕ) → b < 2 → clear 32 b y ≡ (if y % 2 == 1 then 0 else b)
clear_one zero y h = ground (arith, zero_and 32 y)
clear_one (suc zero) y h = ground (arith, one_and 31 y)
clear_one (suc (suc b)) y h = absurd (omega arith)

zero_bits : (i : ℕ) → bit i 0 ≡ 0
unfolding bit
zero_bits zero = refl
zero_bits (suc i) = zero_bits i

-- A mask is cleared exactly if all its bits are there.
cleared :
    (mask class : ℕ)
    → mask < 2 ^ 32
    → ((clear 32 mask class == 0) ≡ true) ↔ ((i : ℕ) → bit i mask ≤ bit i class)
cleared mask class h = (
  λ e. covered 32 mask class h (ground (arith, e)),
  λ e. ground (arith, covers 32 mask class h e),
)

-- What root misses, by the three bits of execution.
missing :
    (mode mask : ℕ)
    → (root_missing mode mask == 0) ≡ true
      ↔ (bit 0 mask ≤ bit 0 (mode / 64) + bit 0 (mode / 8) + bit 0 mode)
unfolding bit
missing mode mask =
    let b : ℕ = mask % 2 in
    let c1 : ℕ = mode / 64 % 2 in
    let c2 : ℕ = mode / 8 % 2 in
    let c3 : ℕ = mode % 2 in
    let once : (b y : ℕ) → b < 2 → clear 32 b y < 2 = λ b y h. ground (arith, h, clear_one b y h) in
    let start : bit_and 32 mask 1 ≡ mask % 2 = low_bit 31 mask in
    let m0 : ℕ = bit_and 32 mask 1 in
    let m1 : ℕ = clear 32 m0 (mode / 64) in
    let m2 : ℕ = clear 32 m1 (mode / 8) in
    let h0 : m0 < 2 = ground (arith, start) in
    let h1 : m1 < 2 = once m0 (mode / 64) h0 in
    let h2 : m2 < 2 = once m1 (mode / 8) h1 in
    let e1 = clear_one m0 (mode / 64) h0 in
    let e2 = clear_one m1 (mode / 8) h1 in
    let e3 = clear_one m2 mode h2 in
    (λ e. ground (arith, start, e1, e2, e3, e), λ e. ground (arith, start, e1, e2, e3, e))

-- `check_access` for a caller who is not root.
by_class :
    (file_uid file_gid mode uid gid mask : ℕ)
    → (uid == 0) ≡ false
    → (mask == 0) ≡ false
    → check_access file_uid file_gid mode uid gid mask
      ≡ (clear 32 mask (class_of file_uid file_gid mode uid gid) == 0)
unfolding check_access
by_class file_uid file_gid mode uid gid mask z y = elim (Bool-cases (uid == file_uid)) [
  | inl x ↦ rw z (rw y (rw x refl))
  | inr x ↦ elim (Bool-cases (gid == file_gid)) [
    | inl w ↦ rw z (rw y (rw x (rw w refl)))
    | inr w ↦ rw z (rw y (rw x (rw w refl)))
  ]
]

-- Nothing asked is permitted.
none_asked : (root : Bool) (class mode : ℕ) → Permits root class mode 0
unfolding bit
none_asked true class mode = omega arith
none_asked false class mode = λ i. subst (λ b. b ≤ bit i class) (sym (zero_bits i)) (omega arith)

-- `check_access` permits root everything but the execution of what no one may execute, and any other
-- caller exactly what the bits of the class of the caller allow, for every mask of 32 bits.
pub check_access_lem :
    (file_uid file_gid mode uid gid mask : ℕ)
    → mask < 2 ^ 32
    → (check_access file_uid file_gid mode uid gid mask ≡ true)
      ↔ Permits (uid == 0) (class_of file_uid file_gid mode uid gid) mode mask
unfolding check_access
check_access_lem file_uid file_gid mode uid gid mask h =
    let class : ℕ = class_of file_uid file_gid mode uid gid in
    elim (Bool-cases (mask == 0)) [
      | inl y ↦ (
        λ _.
            subst (Permits (uid == 0) class mode) {x = 0} {y = mask} (ground (arith, y))
              (none_asked (uid == 0) class mode),
        λ _. ground (arith, y),
      )
      | inr y ↦ elim (Bool-cases (uid == 0)) [
        | inl z ↦ (
          λ e.
              subst (λ b. Permits b class mode mask) (sym z)
                ((missing mode mask).0 (ground (arith, e, y, z))),
          λ e.
              ground
                (arith, y, z, (missing mode mask).1 (subst (λ b. Permits b class mode mask) z e)),
        )
        | inr z ↦
            (let same = by_class file_uid file_gid mode uid gid mask z y in
              (
                λ e.
                    subst (λ b. Permits b class mode mask) (sym z)
                      ((cleared mask class h).0 (sym same ∙ e)),
                λ e. same ∙ (cleared mask class h).1 (subst (λ b. Permits b class mode mask) z e),
              ))
      ]
    ]
