-- ===== src/Crypto.antt =====
-- src/crypto.rs and its children: what is encrypted is cut into blocks, and each block is sealed
-- with its index. `Env` holds what the code takes from elsewhere: the AEAD of the `ring` crate for
-- the chosen algorithm, the random numbers behind `create_rng`, and the constant BLOCK_SIZE, which
-- is 100 in tests and 16 KB otherwise.
pub mod Format
pub mod Write
pub mod Decrypt
pub mod Read
pub mod RoundTrip
pub mod Copy
pub mod Text
pub mod Serialize
use encryptedfs.Prelude.{
  ℕ, zero, suc, ◌+◌, ◌/◌, ◌%◌, ◌^◌, ◌≤◌, ◌<◌, ◌≡◌, Option, some, List, [], ◌∷◌, ◌++◌, length,
}

pub record Env : Type 0 where
  -- NONCE_LEN, and `Algorithm::tag_len`.
  pub nonce_len : ℕ
  pub tag_len : ℕ
  -- `seal_in_place_separate_tag`: key, nonce, additional data, plaintext; ciphertext and tag.
  pub seal : List ℕ → List ℕ → List ℕ → List ℕ → Option (List ℕ × List ℕ)
  -- `open_within`: key, nonce, additional data, ciphertext followed by the tag.
  pub open_within : List ℕ → List ℕ → List ℕ → List ℕ → Option (List ℕ)
  -- The bytes of the i-th `fill_bytes` of a nonce.
  pub random : ℕ → List ℕ
  pub block_size : ℕ

-- What `ring` documents: sealing a block works, keeps its length and adds a tag of fixed length,
-- and opening undoes it. A block is not empty and its ciphertext fits a machine word.
pub record IsEnv (e : Env) : Type 0 where
  pub block_pos : 0 < e.block_size
  pub small : e.nonce_len + e.block_size + e.tag_len < 2 ^ 63
  pub length-random : (i : ℕ) → length (e.random i) ≡ e.nonce_len
  pub seals :
      (key nonce aad p : List ℕ)
      → length p ≤ e.block_size
      → (c t : List ℕ) × (e.seal key nonce aad p ≡ some (c, t))
        × (length c ≡ length p)
        × (length t ≡ e.tag_len)
        × (e.open_within key nonce aad (c ++ t) ≡ some p)
  pub length-open_within :
      (key nonce aad c p : List ℕ)
      → e.open_within key nonce aad c ≡ some p
      → length p + e.tag_len ≡ length c

-- `to_le_bytes` of a machine word of `n` bytes.
unfoldable pub le_bytes : ℕ → ℕ → List ℕ
le_bytes zero x = []
le_bytes (suc n) x = (x % 256) ∷ le_bytes n (x / 256)

-- `Aad::from(block_index.to_le_bytes())`.
abbrev pub aad_of : ℕ → List ℕ
aad_of block_index = le_bytes 8 block_index

abbrev pub ciphertext_block_size : Env → ℕ
ciphertext_block_size e = e.nonce_len + e.block_size + e.tag_len

-- `RandomNonceSequence`: how often it has drawn, and the last nonce.
pub record NonceSequence : Type 0 where
  pub draws : ℕ
  pub last_nonce : Option (List ℕ)

-- `NonceSequence::advance` of the writer.
unfoldable pub advance : Env → NonceSequence → NonceSequence
advance e s = record { draws = s.draws + 1; last_nonce = some (e.random s.draws) }
