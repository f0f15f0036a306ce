-- ===== src/Crypto/Text/Utf8.antt =====
-- The check of `String::from_utf8`: lead bytes, and the ranges of the bytes that follow.
use encryptedfs.Prelude.{
  ℕ, ◌-◌, Bool, false, ◌&&◌, Option, none, some, List, [], ◌∷◌, ltb, leb, ◌==◌, if◌then◌else◌,
}

-- How many bytes follow, and the range of the next one.
pub record Pending : Type 0 where
  pub need : ℕ
  pub low : ℕ
  pub high : ℕ

abbrev pub in_range : ℕ → ℕ → ℕ → Bool
in_range low high b = leb low b && leb b high

abbrev pub idle : Pending
idle = record { need = 0; low = 128; high = 191 }

abbrev pub lead : ℕ → Option Pending
lead b =
    if ltb b 128
    then some idle
    else if in_range 194 223 b
    then some (record { need = 1; low = 128; high = 191 })
    else if b == 224
    then some (record { need = 2; low = 160; high = 191 })
    else if b == 237
    then some (record { need = 2; low = 128; high = 159 })
    else if in_range 225 239 b
    then some (record { need = 2; low = 128; high = 191 })
    else if b == 240
    then some (record { need = 3; low = 144; high = 191 })
    else if in_range 241 243 b
    then some (record { need = 3; low = 128; high = 191 })
    else if b == 244
    then some (record { need = 3; low = 128; high = 143 })
    else none

abbrev pub follow : Pending → ℕ → Option Pending
follow p b =
    if p.need == 0
    then lead b
    else if in_range p.low p.high b
    then some (record { need = p.need - 1; low = 128; high = 191 })
    else none

abbrev pub utf8_from : Pending → List ℕ → Bool
utf8_from p [] = p.need == 0
utf8_from p (b ∷ bs) = elim (follow p b) [ none ↦ false | some q ↦ utf8_from q bs ]

abbrev pub is_utf8 : List ℕ → Bool
is_utf8 s = utf8_from idle s
