-- ===== src/Crypto/Serialize.antt =====
-- src/crypto.rs, `serialize_encrypt_into`: what `bincode` prints of a value goes through a writer that
-- encrypts. A value is a vector of bytes.
pub mod RoundTrip
use encryptedfs.Prelude.{ℕ, ◌+◌, List, [], ◌∷◌, Exec, pure, ◌>>=◌, ◌>>◌, Result}
use encryptedfs.Io.{IoError}
use encryptedfs.Io.Contract.{ReadFn, WriteAllFn}
use encryptedfs.Io.File.{File}
use encryptedfs.Crypto.{Env}
use encryptedfs.Crypto.Write

-- What the code takes from `bincode`: the pieces that it writes for a value, and how it reads a value
-- from a stream, through the stream's `read`.
pub record Bincode : Type 1 where
  pub pieces : List ℕ → List (List ℕ)
  pub deserialize_from : {S : Type 0} → ReadFn S → Exec IoError S (List ℕ)

-- `bincode::serialize_into`: each piece is given to `write_all`.
unfoldable pub serialize_into :
    {W : Type 0} → WriteAllFn W → List (List ℕ) → Exec IoError W (Unit {0})
serialize_into write_all [] = pure tt
serialize_into write_all (p ∷ ps) = do write_all p; serialize_into write_all ps

-- The AEAD with the random numbers from the `i`-th on, for a writer that is not the first.
abbrev pub drawn_from : ℕ → Env → Env
drawn_from i e = record e { random = λ n. e.random (i + n) }

-- The finished file.
unfoldable pub serialize_encrypt_into : Env → Bincode → List ℕ → List ℕ → File → Result IoError File
serialize_encrypt_into e bincode value key file =
    let run = do serialize_into (Write.write_all e) (bincode.pieces value); Write.finish e
    in (run (Write.new e file key)).0
