-- ===== src/Crypto/Decrypt.antt =====
-- src/crypto/read.rs, `decrypt_block!`: fills a buffer with one block of ciphertext, as long as the
-- input gives bytes, and opens it in place. The record holds the places that the macro is given.
pub mod Fill
pub mod Open
pub mod Authentic
use encryptedfs.Prelude.{
  ℕ, zero, suc, ◌+◌, ◌-◌, ◌%◌, ◌^◌, Option, none, some, List, [], ◌++◌, ltb, ◌==◌, if◌then◌else◌,
  length, take, drop, splice, Exec, pure, raise, gets, ◌>>=◌, ◌>>◌, modify, ok, err,
}
use encryptedfs.Io.{IoError, other, panicked, diverged, start}
use encryptedfs.Io.File
use encryptedfs.Io.File.{File}
use encryptedfs.BufMut
use encryptedfs.BufMut.{BufMut}
use encryptedfs.Crypto.{aad_of, Env}

pub record Decrypter : Type 0 where
  pub block_index : ℕ
  pub buf : BufMut
  pub input : File
  pub last_nonce : Option (List ℕ)
  pub key : List ℕ

-- The loop that reads until the slice of length `len` is full or the input ends.
unfoldable pub fill_from : ℕ → ℕ → List ℕ → Exec IoError File (List ℕ)
fill_from zero len got = raise diverged
fill_from (suc fuel) len got = do
  bytes ← File.read (len - length got)
  let again = fill_from fuel len (got ++ bytes)
  if length bytes == 0 then pure got else again

abbrev pub fill : ℕ → Exec IoError File (List ℕ)
fill len = fill_from (suc len) len []

abbrev pub on_input : {A : Type 0} → Exec IoError File A → Exec IoError Decrypter A
on_input m d = let (r, f) = m d.input in (r, record d { input = f })

abbrev pub on_buf : {A : Type 0} → Exec IoError BufMut A → Exec IoError Decrypter A
on_buf m d = let (r, b) = m d.buf in (r, record d { buf = b })

-- `.unwrap()` of a call's result.
abbrev pub unwrap : {S A : Type 0} → Exec IoError S A → Exec IoError S A
unwrap m s = let (r, s') = m s in (elim r [ ok a ↦ ok a | err e ↦ err panicked ], s')

module _ (e : Env) where
  -- Opens the ciphertext block in the buffer and leaves the plaintext behind the nonce.
  unfoldable pub open_block : List ℕ → Exec IoError Decrypter (List ℕ)
  open_block block d =
      let nonce = take e.nonce_len block in
      let d' = record d { last_nonce = some nonce } in
      let opened = e.open_within d.key nonce (aad_of d.block_index) (drop e.nonce_len block) in
      if ltb (length block) e.nonce_len then (err panicked, d) else elim opened [
        | none ↦ (err other, d')
        | some p ↦ (ok p, record d' { buf = record d.buf { buf = splice e.nonce_len p d.buf.buf } })
      ]

  -- The positions and the index after a block that holds some plaintext.
  unfoldable pub accept_block : ℕ → Exec IoError Decrypter (Unit {0})
  accept_block len = do
    unwrap (on_buf (BufMut.seek_available (start (e.nonce_len + len))))
    unwrap (on_buf (BufMut.seek_read (start e.nonce_len)))
    modify (λ d. record d { block_index = (d.block_index + 1) % 2 ^ 64 })

  unfoldable pub decrypt_block : Exec IoError Decrypter (Unit {0})
  decrypt_block = do
    modify (λ d. record d { buf = BufMut.clear d.buf })
    space ← gets (λ d. BufMut.as_mut_remaining d.buf)
    block ← on_input (fill (length space))
    modify (λ d. record d { buf = record d.buf { buf = splice d.buf.available block d.buf.buf } })
    if length block == 0
        then pure tt
        else do p ← open_block block; if length p == 0 then pure tt else accept_block (length p)
