-- ===== src/Crypto/Write/Seek.antt =====
-- src/crypto/write.rs, `RingCryptoWriteSeek`: a writer that loads the block it is to change from the
-- file it writes to. `buf_size` is the constant of src/stream_util.rs, for the zeros beyond the end.
pub mod Stale
use encryptedfs.Prelude.{
  ℕ, ◌+◌, ◌*◌, ◌-◌, ◌/◌, ◌%◌, ◌^◌, min, Bool, true, false, not, ◌&&◌, ◌||◌, Option, none, some,
  List, ltb, ◌==◌, if◌then◌else◌, replicate, Exec, pure, raise, gets, ◌>>=◌, ◌>>◌, modify, when, ok,
  err,
}
use encryptedfs.Prelude.Int.{ℤ, ltb_ℤ, as_i64, as_u64, add_i64, pos}
use encryptedfs.Io.{IoError, SeekFrom, start, from_end, current, panicked, invalid_input}
use encryptedfs.Io.File
use encryptedfs.Io.File.{File}
use encryptedfs.BufMut
use encryptedfs.BufMut.{BufMut}
use encryptedfs.Stream
use encryptedfs.Crypto.{ciphertext_block_size, Env}
use encryptedfs.Crypto.Decrypt
use encryptedfs.Crypto.Decrypt.{Decrypter}
use encryptedfs.Crypto.Write
use encryptedfs.Crypto.Write.{RingCryptoWrite, on_buf, set_buf, encrypt_and_write, write_all}

pub record RingCryptoWriteSeek : Type 0 where
  pub inner : RingCryptoWrite
  pub opening_key : List ℕ
  pub last_nonce : Option (List ℕ)
  pub decrypt_buf : BufMut

abbrev pub on_inner :
    {A : Type 0} → Exec IoError RingCryptoWrite A → Exec IoError RingCryptoWriteSeek A
on_inner m w = let (o, i) = m w.inner in (o, record w { inner = i })

-- `self.inner.out.as_mut().unwrap()`, with a seek, and with `stream_len`.
abbrev pub seek_out : ℕ → Exec IoError RingCryptoWrite (Unit {0})
seek_out p w = elim w.out [
  | none ↦ (err panicked, w)
  | some f ↦ (ok tt, record w { out = some (File.seek_to p f) })
]

abbrev pub out_len : Exec IoError RingCryptoWrite ℕ
out_len w = elim w.out [ none ↦ (err panicked, w) | some f ↦ (ok (File.stream_len f), w) ]

abbrev pub set_block_index : ℕ → Exec IoError RingCryptoWrite (Unit {0})
set_block_index i = modify (λ w. record w { block_index = i })

-- What `decrypt_block!` is given, and what it leaves.
abbrev pub decrypter : File → RingCryptoWriteSeek → Decrypter
decrypter f w = record {
  block_index = w.inner.block_index;
  buf = w.decrypt_buf;
  input = f;
  last_nonce = w.last_nonce;
  key = w.opening_key;
}

abbrev pub put_back : Decrypter → RingCryptoWriteSeek → RingCryptoWriteSeek
put_back d w = record w {
  inner = record w.inner { out = some d.input; block_index = d.block_index };
  last_nonce = d.last_nonce;
  decrypt_buf = d.buf;
}

module _ (e : Env) where
  unfoldable pub new : File → List ℕ → RingCryptoWriteSeek
  new writer key = record {
    inner = Write.new e writer key;
    opening_key = key;
    last_nonce = none;
    decrypt_buf = BufMut.new (replicate (ciphertext_block_size e) 0);
  }

  -- `pos`.
  unfoldable pub position : RingCryptoWriteSeek → ℕ
  position w = w.inner.block_index * e.block_size + w.inner.buf.pos_write

  -- `decrypt_block!` on the fields of the writer.
  unfoldable pub load_block : Exec IoError RingCryptoWriteSeek (Unit {0})
  load_block w = elim w.inner.out [
    | none ↦ (err panicked, w)
    | some f ↦ let (o, d) = Decrypt.decrypt_block e (decrypter f w) in (o, put_back d w)
  ]

  -- Makes the block that was loaded the one to be written.
  unfoldable pub take_block : Exec IoError RingCryptoWriteSeek (Unit {0})
  take_block = do
    on_inner (modify (λ i. set_buf (BufMut.clear i.buf) i))
    index ← gets (λ w. (w.inner.block_index + (2 ^ 64 - 1)) % 2 ^ 64)
    on_inner (set_block_index index)
    on_inner (seek_out (index * ciphertext_block_size e % 2 ^ 64))
    len ← gets (λ w. BufMut.available_read w.decrypt_buf)
    _ ← on_inner (on_buf (BufMut.seek_available (start len)))
    bytes ← gets (λ w. BufMut.as_ref_read_available w.decrypt_buf)
    on_inner (modify (λ i. set_buf (BufMut.set_as_mut bytes i.buf) i))

  unfoldable pub decrypt_block : Exec IoError RingCryptoWriteSeek Bool
  decrypt_block = do
    old_block_index ← gets (λ w. w.inner.block_index)
    load_block
    block_index ← gets (λ w. w.inner.block_index)
    if old_block_index == block_index then pure false else do take_block; pure true

  -- The subtraction wraps.
  unfoldable pub get_plaintext_len : Exec IoError RingCryptoWriteSeek ℕ
  get_plaintext_len = do
    n ← on_inner out_len
    i ← gets (λ w. w.inner)
    let more : ℕ = (n / ciphertext_block_size e + 1) * (ciphertext_block_size e - e.block_size)
    pure (
        if n == 0 && i.buf.available == 0
        then 0
        else if i.block_index == n / ciphertext_block_size e && i.buf.dirty
        then i.block_index * e.block_size + i.buf.available
        else (n + 2 ^ 64 - more) % 2 ^ 64)

  -- Nothing was written since the writer was opened.
  abbrev pub is_fresh : RingCryptoWriteSeek → Bool
  is_fresh w = position w == 0 && w.inner.buf.available == 0

  -- Loads the first block.
  unfoldable pub load_first : Exec IoError RingCryptoWriteSeek (Unit {0})
  load_first = do on_inner (seek_out 0); on_inner (set_block_index 0); _ ← decrypt_block; pure tt

  -- Writes the current block if it was changed.
  unfoldable pub write_current : Exec IoError RingCryptoWriteSeek (Unit {0})
  write_current w = if w.inner.buf.dirty then on_inner (encrypt_and_write e) w else (ok tt, w)

  -- At the end of a full block, which is the start of the next one.
  abbrev pub at_full_block_end : RingCryptoWriteSeek → Bool
  at_full_block_end w =
      position w % e.block_size == 0 && w.inner.buf.pos_write == w.inner.buf.available

  abbrev pub seek_buf : ℕ → Exec IoError RingCryptoWriteSeek (Unit {0})
  seek_buf p = do _ ← on_inner (on_buf (BufMut.seek_write (start p))); pure tt

  -- The target lies in the block of the current position.
  unfoldable pub seek_in_block : ℕ → Exec IoError RingCryptoWriteSeek (Unit {0})
  seek_in_block new_pos = do
    fresh ← gets is_fresh
    when fresh load_first
    at_end ← gets (λ w. w.inner.buf.available == 0 || at_full_block_end w)
    when at_end (do write_current; _ ← decrypt_block; pure tt)
    available ← gets (λ w. w.inner.buf.available)
    seek_buf (min (new_pos % e.block_size) available)

  -- The target lies in another block, which may be beyond the last one.
  unfoldable pub change_block : ℕ → Exec IoError RingCryptoWriteSeek (Unit {0})
  change_block new_pos = do
    write_current
    n ← on_inner out_len
    let new_block_index : ℕ = new_pos / e.block_size
    let target : ℕ = min new_block_index (n / ciphertext_block_size e)
    on_inner (seek_out (target * ciphertext_block_size e % 2 ^ 64))
    on_inner (set_block_index target)
    _ ← decrypt_block
    i ← gets (λ w. w.inner)
    if i.block_index == new_block_index
        then seek_buf (min (new_pos % e.block_size) i.buf.available)
        else seek_buf i.buf.available

  -- What `seek` does once the target is known.
  unfoldable pub seek_to : ℕ → ℕ → Exec IoError RingCryptoWriteSeek ℕ
  seek_to buf_size new_pos = do
    here ← gets (position)
    let move = do
      if here / e.block_size == new_pos / e.block_size
          then seek_in_block new_pos
          else change_block new_pos
      reached ← gets (position)
      when (ltb reached new_pos)
          (on_inner (Stream.fill_zeros buf_size (write_all e) (new_pos - reached)))
      gets (position)
    if here == new_pos then pure new_pos else move

  unfoldable pub seek_target : SeekFrom → Exec IoError RingCryptoWriteSeek ℤ
  seek_target (start p) = pure (as_i64 p)
  seek_target (from_end d) = do n ← get_plaintext_len; pure (add_i64 (as_i64 n) d)
  seek_target (current d) = gets (λ w. add_i64 (as_i64 (position w)) d)

  unfoldable pub seek : ℕ → SeekFrom → Exec IoError RingCryptoWriteSeek ℕ
  seek buf_size p = do
    target ← seek_target p
    if ltb_ℤ target (pos 0) then raise invalid_input else seek_to buf_size (as_u64 target)

  unfoldable pub flush : Exec IoError RingCryptoWriteSeek (Unit {0})
  flush = on_inner (Write.flush e)

  -- Seals a full block, and loads the one behind it if there is one.
  unfoldable pub next_block : Exec IoError RingCryptoWriteSeek (Unit {0})
  next_block = do
    flush
    here ← gets (position)
    n ← on_inner out_len
    let more : Bool = ltb (here / e.block_size * ciphertext_block_size e % 2 ^ 64) n
    when more (do _ ← decrypt_block; pure tt)

  unfoldable pub write : List ℕ → Exec IoError RingCryptoWriteSeek ℕ
  write src = do
    fresh ← gets is_fresh
    full ← gets (λ w. w.inner.buf.dirty && BufMut.remaining w.inner.buf == 0)
    if fresh then load_first else when full next_block
    on_inner (Write.write e src)

  unfoldable pub finish : Exec IoError RingCryptoWriteSeek File
  finish = on_inner (Write.finish e)
