-- ===== src/Tests/Rewriting.antt =====
-- The theorem on the seeking writer, at a concrete input.
use encryptedfs.Prelude.{◌≡◌, refl, false, none, some, [], ◌∷◌, arith, ok}
use encryptedfs.Io.{start}
use encryptedfs.Io.File
use encryptedfs.Io.File.{File}
use encryptedfs.BufMut
use encryptedfs.Crypto.{le_bytes}
use encryptedfs.Crypto.Decrypt
use encryptedfs.Crypto.Write
use encryptedfs.Crypto.Write.Seek
use encryptedfs.Crypto.Write.Seek.{
  RingCryptoWriteSeek, seek, seek_target, seek_to, seek_in_block, load_first, decrypt_block,
  load_block, take_block, position, write_current, write,
}
use encryptedfs.Crypto.Write.Seek.Stale.{seek-past_end, Loaded}
use encryptedfs.Tests.Sample.{sample, key}

-- A file of one full block.
abbrev one_block : File
one_block = record { content = 0 ∷ 7 ∷ 10 ∷ 11 ∷ 12 ∷ 46 ∷ []; cursor = 0; quota = 100; burst = 1 }

abbrev unloaded : RingCryptoWriteSeek
unloaded = Seek.new sample one_block key

-- The writer after a seek to the second byte.
abbrev loaded : RingCryptoWriteSeek
loaded = record {
  inner = record {
    out = some one_block;
    key = key;
    buf = record {
      buf = 10 ∷ 11 ∷ 12 ∷ [];
      pos_write = 1;
      pos_read = 0;
      available = 3;
      dirty = false;
    };
    nonce_sequence = record { draws = 0; last_nonce = none };
    block_index = 0;
  };
  opening_key = key;
  last_nonce = some (0 ∷ 7 ∷ []);
  decrypt_buf = record {
    buf = 0 ∷ 7 ∷ 10 ∷ 11 ∷ 12 ∷ 46 ∷ [];
    pos_write = 0;
    pos_read = 2;
    available = 5;
    dirty = false;
  };
}

seek_first : seek sample 2 (start 1) unloaded ≡ (ok 1, loaded)
unfolding seek seek_target seek_to seek_in_block load_first decrypt_block load_block take_block
    position write_current Decrypt.decrypt_block Decrypt.fill_from Decrypt.open_block
    Decrypt.accept_block BufMut.clear BufMut.seek_available BufMut.seek_read BufMut.seek_write
    BufMut.new Write.new Seek.new File.read File.seek_to le_bytes
seek_first = refl

loaded-Loaded : Loaded sample 1 one_block loaded
loaded-Loaded = record {
  is_open = refl;
  burst = omega arith;
  whole = refl;
  small = omega arith;
  buf_valid = omega arith;
  buf_len = refl;
  clean = refl;
  earlier = omega arith;
  inside = omega arith;
}

seek-past_end_example :
    let (r, w) = seek sample 2 (start 4) loaded in
    let (r2, w2) = write sample (99 ∷ []) w in
    (r ≡ ok 4)
    × (r2 ≡ ok 1)
    × (w2.inner.block_index ≡ 1)
    × (BufMut.as_ref w2.inner.buf ≡ 10 ∷ 99 ∷ 12 ∷ [])
seek-past_end_example =
    seek-past_end sample loaded-Loaded 1 (omega arith) (omega arith) (omega arith) 2 (99 ∷ [])
