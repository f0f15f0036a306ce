-- ===== src/Tests/Sample.antt =====
-- A small AEAD for the examples: the bytes stay as they are, and the tag is one number made of the
-- key, the nonce, the additional data and the bytes. Blocks hold three bytes.
use encryptedfs.Prelude.{
  ℕ, ◌+◌, ◌-◌, ◌%◌, ◌≡◌, refl, ◌&&◌, Option, none, some, List, [], ◌∷◌, ◌++◌, arith, ltb, ◌==◌,
  if◌then◌else◌, length, take, drop, length-append, length-take, take-append_length,
  drop-append_length,
}
use encryptedfs.Io.File.{File}
use encryptedfs.Crypto.{Env, IsEnv}

abbrev sum : List ℕ → ℕ
sum [] = 0
sum (x ∷ xs) = x + sum xs

abbrev pub tag_of : List ℕ → List ℕ → List ℕ → List ℕ → ℕ
tag_of key nonce aad p = sum key + sum nonce + sum aad + sum p

abbrev pub open_sample : List ℕ → List ℕ → List ℕ → List ℕ → Option (List ℕ)
open_sample key nonce aad c =
    let p = take (length c - 1) c in
    if ltb 0 (length c) && (sum (drop (length c - 1) c) == tag_of key nonce aad p)
    then some p
    else none

abbrev pub sample : Env
sample = record {
  nonce_len = 2;
  tag_len = 1;
  seal = λ key nonce aad p. some (p, tag_of key nonce aad p ∷ []);
  open_within = open_sample;
  random = λ i. (i % 256) ∷ 7 ∷ [];
  block_size = 3;
}

open_sealed :
    (key nonce aad p : List ℕ)
    → open_sample key nonce aad (p ++ tag_of key nonce aad p ∷ []) ≡ some p
open_sealed key nonce aad p =
    let t : List ℕ = tag_of key nonce aad p ∷ [] in
    let len : length (p ++ t) ≡ length p + 1 = length-append p t in
    let front : take (length (p ++ t) - 1) (p ++ t) ≡ p =
      take-append_length (length (p ++ t) - 1) p t (omega arith) in
    let back : drop (length (p ++ t) - 1) (p ++ t) ≡ t =
      drop-append_length (length (p ++ t) - 1) p t (omega arith) in
    ground (arith, len, front, back)

length-open_sample :
    (key nonce aad c p : List ℕ) → open_sample key nonce aad c ≡ some p → length p + 1 ≡ length c
length-open_sample key nonce aad c p opened = ground (arith, length-take (length c - 1) c)

pub sample-IsEnv : IsEnv sample
sample-IsEnv = record {
  block_pos = omega arith;
  small = omega arith;
  length-random = λ i. refl;
  seals = λ key nonce aad p fits.
      (p, tag_of key nonce aad p ∷ [], refl, refl, refl, open_sealed key nonce aad p);
  length-open_within = length-open_sample;
}

abbrev pub key : List ℕ
key = 5 ∷ 1 ∷ []

-- Two pieces that do not meet a block's end.
abbrev pub pieces : List (List ℕ)
pieces = (10 ∷ 11 ∷ []) ∷ (12 ∷ 13 ∷ 14 ∷ []) ∷ []

abbrev pub empty_file : File
empty_file = record { content = []; cursor = 0; quota = 100; burst = 1 }
