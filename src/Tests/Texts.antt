-- ===== src/Tests/Texts.antt =====
-- The theorems on texts and file names, with a codec that moves the numbers from 124 on up by one.
use encryptedfs.Prelude.{
  ℕ, ◌+◌, ◌-◌, ◌≤◌, ◌≡◌, refl, ap, ap₂, some, List, [], ◌∷◌, arith, ltb, if◌then◌else◌, ok,
}
use encryptedfs.Crypto.Write.Holds.{HasRoom}
use encryptedfs.Crypto.Text.{Codec, vec_max, encrypt_file_name, decrypt_file_name, bar, slash}
use encryptedfs.Crypto.Text.Replace.{Free}
use encryptedfs.Crypto.Text.RoundTrip.{IsCodec, decrypt_file_name-encrypt_file_name}
use encryptedfs.Tests.Sample.{sample, sample-IsEnv, key}

abbrev up : List ℕ → List ℕ
up [] = []
up (x ∷ xs) = (if ltb x 124 then x else x + 1) ∷ up xs

abbrev down : List ℕ → List ℕ
down [] = []
down (x ∷ xs) = (if ltb x 124 then x else x - 1) ∷ down xs

abbrev codec : Codec
codec = record { encode = up; decode = λ v. some (down v); hash_hex = λ v. v }

down-up : (v : List ℕ) → down (up v) ≡ v
down-up [] = refl
down-up (x ∷ xs) = ap₂ (λ y ys. y ∷ ys) (ground arith) (down-up xs)

up-Free : (v : List ℕ) → Free bar (up v)
up-Free [] = tt
up-Free (x ∷ xs) = (ground arith, up-Free xs)

codec-IsCodec : IsCodec codec
codec-IsCodec = record { decode-encode = λ v. ap some (down-up v); no_bar = up-Free }

room_for : (n : ℕ) → n ≤ 12 → HasRoom sample vec_max n
room_for n h = record { blocks = λ k l. omega arith }

-- "héy", in UTF-8.
abbrev text : List ℕ
text = 104 ∷ 195 ∷ 169 ∷ 121 ∷ []

-- "a/|b" has a separator, and the character that stands for one.
abbrev name : List ℕ
name = 97 ∷ 47 ∷ 124 ∷ 98 ∷ []

decrypt_file_name-encrypt_file_name_example :
    (c : List ℕ) × (encrypt_file_name sample codec key name ≡ ok c)
    × Free slash c
    × (decrypt_file_name sample codec key 2 c ≡ ok (97 ∷ 32 ∷ 124 ∷ 98 ∷ []))
decrypt_file_name-encrypt_file_name_example =
    decrypt_file_name-encrypt_file_name sample codec key sample-IsEnv codec-IsCodec 2 name refl refl
      (omega arith) refl (omega arith) (room_for 4 (omega arith))
