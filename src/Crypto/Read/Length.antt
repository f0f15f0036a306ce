-- ===== src/Crypto/Read/Length.antt =====
-- `get_plaintext_len` against the stream: right where the last block is not full.
use native.Mathlib.Nat.{mul-add-div_right, div-eq_of_lt, mod_def}
use encryptedfs.Prelude.{
  ℕ, ◌+◌, ◌*◌, ◌/◌, ◌≤◌, ◌<◌, ◌≡◌, List, [], ◌∷◌, arith, length, flatten, length-append, suc, ◌-◌,
  ◌%◌, ◌^◌, refl, sym, ap, ◌∙◌, subst, inl, inr, false, some, ◌==◌, if◌then◌else◌, Bool-cases, ok,
}
use encryptedfs.Io.File.{File}
use encryptedfs.Io.File
use encryptedfs.Crypto.{Env, IsEnv, ciphertext_block_size}
use encryptedfs.Crypto.Format.{IsBlocks, length-Sealed}
use encryptedfs.Crypto.Write.Finish.{Stores}
use encryptedfs.Crypto.Read.{RingCryptoRead, get_plaintext_len}

-- The last block of a stream.
abbrev pub last_length : List (List ℕ) → ℕ
last_length [] = 0
last_length (p ∷ []) = length p
last_length (p ∷ q ∷ ps) = last_length (q ∷ ps)

-- All blocks but the last are full.
length-IsBlocks :
    (size : ℕ) (p : List ℕ) (ps : List (List ℕ))
    → IsBlocks size (p ∷ ps)
    → length (flatten (p ∷ ps)) ≡ length ps * size + last_length (p ∷ ps)
length-IsBlocks size p [] c = omega (arith, length-append p [])
length-IsBlocks size p (q ∷ ps) c =
    omega (arith, length-append p (flatten (q ∷ ps)), c.0, length-IsBlocks size q ps c.1)

last_length-bounds :
    (size : ℕ) (p : List ℕ) (ps : List (List ℕ))
    → IsBlocks size (p ∷ ps)
    → (0 < last_length (p ∷ ps)) × (last_length (p ∷ ps) ≤ size)
last_length-bounds size p [] c = c
last_length-bounds size p (q ∷ ps) c = last_length-bounds size q ps c.1

pub div_unique : (k r d : ℕ) → r < d → (k * d + r) / d ≡ k
div_unique k r d h = omega (arith, mul-add-div_right {m = d} (omega arith) k r, div-eq_of_lt h)

pub mod_unique : (k r d : ℕ) → r < d → (k * d + r) % d ≡ r
mod_unique k r d h = omega (arith, mod_def (k * d + r) d, ap (λ q. d * q) (div_unique k r d h))

module _ (e : Env) (key : List ℕ) (env : IsEnv e)
    (wide : e.nonce_len + e.tag_len ≤ e.block_size) where
  -- What a block adds to its plaintext.
  abbrev overhead : ℕ
  overhead = e.nonce_len + e.tag_len

  -- The arithmetic of the code on a stream of `k` full blocks and a last one of `last` bytes.
  computed :
      (k last n : ℕ)
      → 0 < last
      → last ≤ e.block_size
      → n ≡ k * ciphertext_block_size e + (last + overhead)
      → n < 2 ^ 64
      → (n + 2 ^ 64 - (n / ciphertext_block_size e + 1) * (ciphertext_block_size e - e.block_size))
          % 2 ^ 64
        ≡ k * e.block_size
          + last
          - (if (k * e.block_size + last) % e.block_size == 0 then overhead else 0)
  computed k last n some_bytes fits length_n small =
      let d : ℕ = ciphertext_block_size e in
      let over : d - e.block_size ≡ overhead = omega arith in
      elim (Bool-cases (last == e.block_size)) [
        | inl is_full ↦
            (let quotient : n / d ≡ k + 1 =
                ap (λ m. m / d) {y = (k + 1) * d + 0} (ground arith)
                ∙ div_unique (k + 1) 0 d (omega arith) in
              let modulo : (k * e.block_size + last) % e.block_size ≡ 0 =
                ap (λ m. m % e.block_size) {y = (k + 1) * e.block_size + 0} (ground arith)
                ∙ mod_unique (k + 1) 0 e.block_size (omega arith) in
              rw (quotient, over, modulo) (ground arith))
        | inr not_full ↦
            (let less : last < e.block_size = ground arith in
              let quotient : n / d ≡ k =
                ap (λ m. m / d) length_n ∙ div_unique k (last + overhead) d (omega arith) in
              let modulo : (k * e.block_size + last) % e.block_size ≡ last =
                mod_unique k last e.block_size less in
              rw (quotient, over, modulo) (ground arith))
      ]

  computed_blocks :
      {f : File} {written : List ℕ} (stores : Stores e key written f) (blocks : List (List ℕ))
      → stores.blocks ≡ blocks
      → length f.content < 2 ^ 64
      → (if length f.content == 0
          then 0
          else ((length f.content
                + 2 ^ 64
                - (length f.content / ciphertext_block_size e + 1)
                  * (ciphertext_block_size e - e.block_size))
              % 2 ^ 64))
        ≡ length written - (if length written % e.block_size == 0 then overhead else 0)
  computed_blocks {f} {written} stores [] z small =
      let len : length f.content ≡ 0 =
        length-Sealed e key 0 stores.blocks f.content stores.sealed
        ∙ ap (λ l. length (flatten l) + length l * (e.nonce_len + e.tag_len)) z
        ∙ omega arith in
      let same : length written ≡ 0 =
        ap length (sym stores.whole) ∙ ap (λ l. length (flatten l)) z in
      rw (len, same) (ground arith)
  computed_blocks {f} {written} stores (p ∷ ps) z small =
      let cut : IsBlocks e.block_size (p ∷ ps) =
        subst (λ l. IsBlocks e.block_size l) z stores.cut in
      let last : ℕ = last_length (p ∷ ps) in
      let k : ℕ = length ps in
      let (some_bytes, fits) = last_length-bounds e.block_size p ps cut in
      let same : length written ≡ k * e.block_size + last =
        ap length (sym stores.whole)
        ∙ ap (λ l. length (flatten l)) z
        ∙ length-IsBlocks e.block_size p ps cut in
      let len : length f.content ≡ length (flatten (p ∷ ps)) + suc k * (e.nonce_len + e.tag_len) =
        length-Sealed e key 0 stores.blocks f.content stores.sealed
        ∙ ap (λ l. length (flatten l) + length l * (e.nonce_len + e.tag_len)) z in
      let content : length f.content ≡ k * ciphertext_block_size e + (last + overhead) =
        omega (arith, len, length-IsBlocks e.block_size p ps cut) in
      let not_zero : (length f.content == 0) ≡ false = ground arith in
      rw (not_zero, same) (computed k last (length f.content) some_bytes fits content small)

  -- With the laws of the AEAD, and blocks no shorter than a nonce and a tag: on a reader of a file
  -- that stores some data in fewer than 2^64 bytes, `get_plaintext_len` returns the length of the
  -- data, but where that is a whole number of blocks, as much less as a nonce and a tag take, or 0
  -- for no data; it changes nothing.
  pub get_plaintext_len_lem :
      {f : File} {written : List ℕ} (r : RingCryptoRead)
      → r.input ≡ some f
      → Stores e key written f
      → length f.content < 2 ^ 64
      → get_plaintext_len e r ≡ (
        ok (
            length written
            - (if length written % e.block_size == 0 then e.nonce_len + e.tag_len else 0)),
        r,
      )
  unfolding get_plaintext_len File.stream_len
  get_plaintext_len_lem {f} {written} r input stores small =
      ground (arith, input, computed_blocks stores stores.blocks refl small)
