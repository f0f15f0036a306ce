-- ===== src/Crypto/Write/Seek/Stale.antt =====
-- `RingCryptoWriteSeek`: a seek to the block behind the last one, which has nothing to load.
use encryptedfs.Prelude.{
  ◌%◌, ℕ, ◌+◌, ◌*◌, ◌^◌, ◌≤◌, ◌<◌, ◌≡◌, refl, false, some, [], arith, length, drop_all, ok, ◌-◌,
  min, List, take, splice,
}
use encryptedfs.Io.{start}
use encryptedfs.Io.File
use encryptedfs.Io.File.{File}
use encryptedfs.BufMut
use encryptedfs.BufMut.{BufMut}
use encryptedfs.BufMut.Valid.{IsValid}
use encryptedfs.Crypto.{ciphertext_block_size, Env}
use encryptedfs.Crypto.Decrypt.Fill.{left}
use encryptedfs.Crypto.Decrypt.Open.{decrypt_block-end}
use encryptedfs.Crypto.Read.Seek.Locate.{parts}
use encryptedfs.Crypto.Write
use encryptedfs.Crypto.Write.Holds.{le-mul}
use encryptedfs.Crypto.Write.Seek.{
  decrypter, load_block, decrypt_block, write_current, change_block, RingCryptoWriteSeek, position,
  seek_to, seek_target, seek, write, on_inner,
}

module _ (e : Env) where
  -- What a decryption at the end of the file leaves.
  abbrev not_loaded : File → RingCryptoWriteSeek → RingCryptoWriteSeek
  not_loaded f w = record w {
    inner = record w.inner { out = some f };
    decrypt_buf = BufMut.clear w.decrypt_buf;
  }

  decrypt_block-not_loaded :
      (f : File) (w : RingCryptoWriteSeek)
      → w.inner.out ≡ some f
      → 0 < f.burst
      → left f ≡ []
      → decrypt_block e w ≡ (ok false, not_loaded f w)
  unfolding decrypt_block load_block
  decrypt_block-not_loaded f w is_open burst at_end =
      rw (is_open, decrypt_block-end e (decrypter f w) burst at_end) (ground arith)

  -- The writer stands in one of the `k` full blocks that the file has, and has not changed it.
  pub record Loaded (k : ℕ) (f : File) (w : RingCryptoWriteSeek) : Type 0 where
    pub is_open : w.inner.out ≡ some f
    pub burst : 0 < f.burst
    pub whole : length f.content ≡ k * ciphertext_block_size e
    pub small : k * ciphertext_block_size e < 2 ^ 63
    pub buf_valid : IsValid w.inner.buf
    pub buf_len : length w.inner.buf.buf ≡ e.block_size
    pub clean : w.inner.buf.dirty ≡ false
    pub earlier : w.inner.block_index < k
    pub inside : w.inner.buf.pos_write < e.block_size

  -- The state after the seek: the index is that of the new block, the bytes are the old ones.
  abbrev pub moved : ℕ → ℕ → File → RingCryptoWriteSeek → RingCryptoWriteSeek
  moved k o f w = record w {
    inner = record w.inner {
      out = some (File.seek_to (k * ciphertext_block_size e) f);
      block_index = k;
      buf = record w.inner.buf { pos_write = o };
    };
    decrypt_buf = BufMut.clear w.decrypt_buf;
  }

  module _ {k : ℕ} {f : File} {w : RingCryptoWriteSeek} (h : Loaded k f w) (o : ℕ)
      (held : o ≤ w.inner.buf.available) (in_block : o < e.block_size)
      (fits : k * e.block_size + o < 2 ^ 63) where
    abbrev at_new_block : RingCryptoWriteSeek
    at_new_block = record w {
      inner = record w.inner {
        out = some (File.seek_to (k * ciphertext_block_size e) f);
        block_index = k;
      };
    }

    nothing_left : left (File.seek_to (k * ciphertext_block_size e) f) ≡ []
    unfolding File.seek_to
    nothing_left = drop_all (k * ciphertext_block_size e) f.content (omega (arith, h.whole))

    not_loaded_run :
        decrypt_block e at_new_block
        ≡ (ok false, not_loaded (File.seek_to (k * ciphertext_block_size e) f) at_new_block)
    unfolding File.seek_to
    not_loaded_run =
        decrypt_block-not_loaded (File.seek_to (k * ciphertext_block_size e) f) at_new_block refl
          h.burst nothing_left

    change_block_run : change_block e (k * e.block_size + o) w ≡ (ok tt, moved k o f w)
    unfolding change_block write_current BufMut.seek_write File.stream_len
    change_block_run =
        let (block, offset) = parts (k * e.block_size + o) k o e.block_size refl in_block in
        let (blocks, no_rest) =
          parts (length f.content) k 0 (ciphertext_block_size e) (omega (arith, h.whole))
            (omega arith) in
        let no_wrap : k * ciphertext_block_size e % 2 ^ 64 ≡ k * ciphertext_block_size e =
          omega (arith, h.small) in
        ground (
          arith, h.clean, h.is_open, block, offset, blocks, no_wrap, h.buf_len,
          h.buf_valid.available_le, h.buf_valid.small, not_loaded_run,
        )

    seek_run :
        (buf_size : ℕ)
        → seek e buf_size (start (k * e.block_size + o)) w
          ≡ (ok (k * e.block_size + o), moved k o f w)
    unfolding seek seek_target seek_to position
    seek_run buf_size =
        let (block, offset) = parts (k * e.block_size + o) k o e.block_size refl in_block in
        let (here, _) =
          parts (w.inner.block_index * e.block_size + w.inner.buf.pos_write) w.inner.block_index
            w.inner.buf.pos_write e.block_size refl h.inside in
        ground (arith, block, here, h.earlier, change_block_run)

    write_run :
        (src : List ℕ)
        → write e src (moved k o f w) ≡ on_inner (Write.on_buf (BufMut.write src)) (moved k o f w)
    unfolding write Write.write position
    write_run src =
        let some_place : 0 < k * e.block_size + o =
          omega (arith, le-mul k e.block_size (omega arith), h.earlier) in
        ground (arith, h.clean, some_place)

    -- With positions below 2^63, a file of `k` full blocks, and a writer that has loaded an earlier
    -- block and not changed it: a seek to a place in the block behind the last one, at an offset that
    -- the loaded bytes reach, returns that place, but the buffer keeps those bytes. What is then
    -- written goes over them, so they become data of the new block.
    pub seek-past_end :
        (buf_size : ℕ) (src : List ℕ)
        → let (r, w') = seek e buf_size (start (k * e.block_size + o)) w in
          let (r2, w2) = write e src w' in
          let n = min (e.block_size - o) (length src) in
          (r ≡ ok (k * e.block_size + o))
          × (r2 ≡ ok n)
          × (w2.inner.block_index ≡ k)
          × (BufMut.as_ref w2.inner.buf ≡ splice o (take n src) (BufMut.as_ref w.inner.buf))
    seek-past_end buf_size src =
        let b : BufMut = (moved k o f w).inner.buf in
        let valid : IsValid b = omega (
          arith, h.buf_valid, held, h.buf_valid.read_le, h.buf_valid.available_le,
          h.buf_valid.small,
        ) in
        let (result, bytes, _, _, _, _, _) = BufMut.Cursor.write_lem src valid in
        rw (seek_run buf_size, write_run src) (ground (arith, result, bytes, h.buf_len))
