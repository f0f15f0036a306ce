-- ===== src/EncryptedFs/Names.antt =====
-- What the directories take from src/crypto.rs: the hash of a name, its encryption, which draws a
-- nonce each time, and the decryption. `crypto_names` is what the code passes.
use encryptedfs.Prelude.{ℕ, ◌≡◌, List, [], ◌∷◌, arith, Result, ok, err}
use encryptedfs.Crypto.{Env}
use encryptedfs.Crypto.Text.{
  dot, dollar, decrypt_file_name, encrypt_file_name, hash_file_name, Codec, CryptoError,
}
use encryptedfs.EncryptedFs.{FsError, crypto}

pub record Names : Type 0 where
  pub hash : List ℕ → List ℕ
  -- The argument counts the encryptions.
  pub encrypt : ℕ → List ℕ → Result FsError (List ℕ)
  pub decrypt : List ℕ → Result FsError (List ℕ)

-- The conversion of a `crypto::Error` by `?`.
abbrev pub from_crypto : {A : Type 0} → Result CryptoError A → Result FsError A
from_crypto (ok a) = ok a
from_crypto (err x) = err crypto

abbrev pub crypto_names : (ℕ → Env) → Codec → List ℕ → ℕ → Names
crypto_names e codec key chunk = record {
  hash = hash_file_name codec;
  encrypt = λ i name. from_crypto (encrypt_file_name (e i) codec key name);
  decrypt = λ name. from_crypto (decrypt_file_name (e 0) codec key chunk name);
}

-- The names of a directory itself and of its parent, as the code spells them inside.
abbrev pub this_dir : List ℕ
this_dir = dollar ∷ dot ∷ []

abbrev pub parent_dir : List ℕ
parent_dir = dollar ∷ dot ∷ dot ∷ []

-- The path of a file in a directory's folder, for the caches that are keyed by paths.
abbrev pub join : ℕ → List ℕ → List ℕ
join ino name = ino ∷ name

-- What the directories rely on: the names of their own links stay as they are.
pub record IsNames (names : Names) : Type 0 where
  pub hash_this : names.hash this_dir ≡ this_dir
  pub hash_parent : names.hash parent_dir ≡ parent_dir
  pub encrypt_this : (i : ℕ) → names.encrypt i this_dir ≡ ok this_dir
  pub encrypt_parent : (i : ℕ) → names.encrypt i parent_dir ≡ ok parent_dir

pub crypto_names-IsNames :
    (e : ℕ → Env) (codec : Codec) (key : List ℕ) (chunk : ℕ)
    → IsNames (crypto_names e codec key chunk)
unfolding hash_file_name encrypt_file_name
crypto_names-IsNames e codec key chunk = record {
  hash_this = ground arith;
  hash_parent = ground arith;
  encrypt_this = λ i. ground arith;
  encrypt_parent = λ i. ground arith;
}
