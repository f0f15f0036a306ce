-- ===== src/Crypto/Text.antt =====
-- src/crypto.rs: encrypted texts and file names. A string is its UTF-8 bytes; the characters that
-- the code looks for are ASCII, so that to replace one is to replace a byte.
pub mod Utf8
pub mod Replace
pub mod RoundTrip
use encryptedfs.Prelude.{
  ℕ, suc, ◌-◌, ◌^◌, Bool, false, ◌&&◌, Option, none, some, List, [], ◌∷◌, ◌==◌, if◌then◌else◌,
  length, ◌>>◌, Result, ok, err,
}
use encryptedfs.Io.{IoError, invalid_data}
use encryptedfs.Io.File.{File}
use encryptedfs.Stream.ToEnd.{read_to_end}
use encryptedfs.Crypto.{Env}
use encryptedfs.Crypto.Write
use encryptedfs.Crypto.Read
use encryptedfs.Crypto.Text.Utf8.{is_utf8}
use encryptedfs.Crypto.Text.Replace.{replace}

-- The crates base64 and blake3 with hex: the unpadded standard alphabet, and the hash as text.
pub record Codec : Type 0 where
  pub encode : List ℕ → List ℕ
  pub decode : List ℕ → Option (List ℕ)
  pub hash_hex : List ℕ → List ℕ

pub data CryptoError : Type 0 where
  io : IoError → CryptoError
  decode_error : CryptoError

-- The most that a `Vec` holds, and a cursor over one.
abbrev pub vec_max : ℕ
vec_max = 2 ^ 63 - 1

abbrev pub cursor_of : List ℕ → File
cursor_of v = record { content = v; cursor = 0; quota = vec_max; burst = suc (length v) }

-- The conversion of an `io::Error` by `?`.
abbrev pub from_io : {A : Type 0} → Result IoError A → Result CryptoError A
from_io (ok a) = ok a
from_io (err x) = err (io x)

abbrev pub dot : ℕ
dot = 46

abbrev pub dollar : ℕ
dollar = 36

abbrev pub slash : ℕ
slash = 47

abbrev pub backslash : ℕ
backslash = 92

abbrev pub bar : ℕ
bar = 124

abbrev pub space : ℕ
space = 32

-- The names `$.` and `$..`, and the names `.` and `..`.
abbrev pub is_special : List ℕ → Bool
is_special (a ∷ b ∷ []) = (a == dollar) && (b == dot)
is_special (a ∷ b ∷ c ∷ []) = (a == dollar) && ((b == dot) && (c == dot))
is_special name = false

abbrev pub is_dots : List ℕ → Bool
is_dots (a ∷ []) = a == dot
is_dots (a ∷ b ∷ []) = (a == dot) && (b == dot)
is_dots name = false

-- Both separators become a space.
abbrev pub normalize : List ℕ → List ℕ
normalize name = replace backslash space (replace slash space name)

module _ (e : Env) (codec : Codec) (key : List ℕ) where
  unfoldable pub encrypt : List ℕ → Result CryptoError (List ℕ)
  encrypt s =
      let run = (do Write.write_all e s; Write.finish e) in
      elim (run (Write.new e (cursor_of []) key)).0 [
        | ok f ↦ ok (codec.encode f.content)
        | err x ↦ err (io x)
      ]

  -- `read_to_string`, whose single reads have some size `chunk`.
  unfoldable pub read_to_string : ℕ → List ℕ → Result CryptoError (List ℕ)
  read_to_string chunk v =
      let bytes =
        (read_to_end (Read.read e) chunk (suc (length v)) [] (Read.new e (cursor_of v) key)).0 in
      elim bytes [ ok s ↦ if is_utf8 s then ok s else err (io invalid_data) | err x ↦ err (io x) ]

  unfoldable pub decrypt : ℕ → List ℕ → Result CryptoError (List ℕ)
  decrypt chunk s = elim (codec.decode s) [
    | none ↦ err decode_error
    | some v ↦ read_to_string chunk v
  ]

  unfoldable pub decrypt_file_name : ℕ → List ℕ → Result CryptoError (List ℕ)
  decrypt_file_name chunk name = decrypt chunk (replace bar slash name)

  unfoldable pub encrypt_file_name : List ℕ → Result CryptoError (List ℕ)
  encrypt_file_name name =
      let encrypted : Result CryptoError (List ℕ) = elim (encrypt (normalize name)) [
        | ok s ↦ ok (replace slash bar s)
        | err x ↦ err x
      ] in
      if is_special name then ok name else if is_dots name then ok (dollar ∷ name) else encrypted

unfoldable pub hash_file_name : Codec → List ℕ → List ℕ
hash_file_name codec name =
    if is_special name then name else if is_dots name then dollar ∷ name else codec.hash_hex name
