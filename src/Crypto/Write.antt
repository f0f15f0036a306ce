-- ===== src/Crypto/Write.antt =====
-- src/crypto/write.rs, `RingCryptoWrite`: fills a block, seals it and writes it out. The writer it
-- wraps is a file. A method is an `Exec` action on the state; `flush` of the file changes nothing.

pub mod Seal
pub mod Holds
pub mod Steps
pub mod Finish
pub mod Seek
use encryptedfs.Prelude.{
  ℕ, zero, suc, ◌+◌, ◌%◌, ◌^◌, Bool, true, false, not, ◌&&◌, Option, none, some, List, ◌==◌,
  if◌then◌else◌, length, drop, replicate, Exec, pure, raise, gets, continue, ◌>>=◌, ◌>>◌, modify,
  ok, err,
}
use encryptedfs.Io.{IoError, other, write_zero, panicked, diverged}
use encryptedfs.Io.File
use encryptedfs.Io.File.{File}
use encryptedfs.BufMut
use encryptedfs.BufMut.{BufMut}
use encryptedfs.Crypto.{aad_of, Env, NonceSequence, advance}

pub record RingCryptoWrite : Type 0 where
  pub out : Option File
  pub key : List ℕ
  pub buf : BufMut
  pub nonce_sequence : NonceSequence
  pub block_index : ℕ

abbrev pub is_finished : RingCryptoWrite → Bool
is_finished w = elim w.out [ none ↦ true | some f ↦ false ]

-- `self.out.as_mut().unwrap().write_all(src)`.
unfoldable pub write_out : List ℕ → Exec IoError RingCryptoWrite (Unit {0})
write_out src w = elim w.out [
  | none ↦ (err panicked, w)
  | some f ↦ let (r, f') = File.write_all src f in (r, record w { out = some f' })
]

abbrev pub on_buf : {A : Type 0} → Exec IoError BufMut A → Exec IoError RingCryptoWrite A
on_buf m w = let (r, b) = m w.buf in (r, record w { buf = b })

abbrev pub set_buf : BufMut → RingCryptoWrite → RingCryptoWrite
set_buf b w = record w { buf = b }

module _ (e : Env) where
  unfoldable pub new : File → List ℕ → RingCryptoWrite
  new writer key = record {
    out = some writer;
    key = key;
    buf = BufMut.new (replicate e.block_size 0);
    nonce_sequence = record { draws = 0; last_nonce = none };
    block_index = 0;
  }

  -- `seal_in_place_separate_tag`: draws a nonce, seals the available bytes in place, returns the tag.
  unfoldable pub seal_in_place : Exec IoError RingCryptoWrite (List ℕ)
  seal_in_place w =
      let s = advance e w.nonce_sequence in
      let w' = record w { nonce_sequence = s } in
      let sealed =
        e.seal w.key (e.random w.nonce_sequence.draws) (aad_of w.block_index)
          (BufMut.as_ref w.buf) in
      elim sealed [
        | none ↦ (err other, w')
        | some (c, t) ↦ (ok t, record w' { buf = BufMut.set_as_mut c w.buf })
      ]

  -- `nonce_sequence.last_nonce.as_ref().unwrap()`.
  unfoldable pub get_last_nonce : Exec IoError RingCryptoWrite (List ℕ)
  get_last_nonce w = elim w.nonce_sequence.last_nonce [
    | none ↦ (err panicked, w)
    | some n ↦ (ok n, w)
  ]

  unfoldable pub encrypt_and_write : Exec IoError RingCryptoWrite (Unit {0})
  encrypt_and_write = do
    tag ← seal_in_place
    nonce ← get_last_nonce
    write_out nonce
    sealed ← gets (λ w. BufMut.as_ref w.buf)
    write_out sealed
    modify (λ w. set_buf (BufMut.clear w.buf) w)
    write_out tag
    modify (λ w. record w { block_index = (w.block_index + 1) % 2 ^ 64 })

  unfoldable pub flush : Exec IoError RingCryptoWrite (Unit {0})
  flush w =
      if is_finished w
      then (err other, w)
      else if not w.buf.dirty
      then (ok tt, w)
      else if BufMut.remaining w.buf == 0
      then encrypt_and_write w
      else (ok tt, w)

  unfoldable pub write : List ℕ → Exec IoError RingCryptoWrite ℕ
  write src w =
      let before = if w.buf.dirty && BufMut.remaining w.buf == 0 then flush w else (ok tt, w) in
      if is_finished w
      then (err other, w)
      else continue before.0 (λ _. on_buf (BufMut.write src)) before.1

  -- Takes the file out of the finished writer.
  unfoldable pub take_out : Exec IoError RingCryptoWrite File
  take_out w = elim w.out [ none ↦ (err panicked, w) | some f ↦ (ok f, record w { out = none }) ]

  unfoldable pub finish : Exec IoError RingCryptoWrite File
  finish w =
      let before = if w.buf.dirty then encrypt_and_write w else (ok tt, w) in
      if is_finished w then (err other, w) else continue before.0 (λ _. take_out) before.1

  -- `Write::write_all` of the standard library over `write`, on fuel.
  unfoldable pub write_all_from : ℕ → List ℕ → Exec IoError RingCryptoWrite (Unit {0})
  write_all_from zero src = raise diverged
  write_all_from (suc fuel) src =
      let step = do
        n ← write src
        let again = write_all_from fuel (drop n src)
        if n == 0 then raise write_zero else again
      in if length src == 0 then pure tt else step

  unfoldable pub write_all : List ℕ → Exec IoError RingCryptoWrite (Unit {0})
  write_all src = write_all_from (suc (length src)) src
