-- ===== src/Tests/Seeking.antt =====
-- The theorems on seeks in an encrypted stream, at concrete inputs.
use encryptedfs.Tests.Sample.{sample, sample-IsEnv, key}
use encryptedfs.Tests.Encryption.{
  second_block, stored, stored_file, first_is_sealed, second_is_sealed,
}
use encryptedfs.Prelude.{ℕ, ◌≡◌, refl, ◌≢◌, false, some, List, [], ◌∷◌, arith, drop, flatten, ok}
use encryptedfs.Io.{start}
use encryptedfs.Crypto.Read.{new, RingCryptoRead, read}
use encryptedfs.Crypto.Write.Finish.{Stores}
use encryptedfs.Crypto.Read.Seek.{seek}
use encryptedfs.Crypto.Read.Seek.Place.{Inside}
use encryptedfs.Crypto.Read.Seek.Stands.{Stands}
use encryptedfs.Crypto.Read.Seek.Target.{Lands, seek_lem}
use encryptedfs.Crypto.Read.Seek.Ends.{new-Stands, seek-after_end}

abbrev pub blocks : List (List ℕ)
blocks = (10 ∷ 11 ∷ 12 ∷ []) ∷ (13 ∷ 14 ∷ []) ∷ []

pub blocks_stored : Stores sample key stored stored_file
blocks_stored = record {
  blocks = blocks;
  sealed = (second_block, first_is_sealed, ([], second_is_sealed, refl));
  cut = (refl, (omega arith, omega arith));
  whole = refl;
}

pub reader-Stands : Stands sample key blocks (new sample stored_file key) 0
unfolding blocks_stored
reader-Stands =
    new-Stands sample key sample-IsEnv {f = stored_file} {written = stored} (omega arith) refl
      (omega arith) blocks_stored

-- Into the second block, which the new reader has not loaded.
seek_lem_example :
    Lands sample key blocks sample-IsEnv 2
      (omega arith)
      (omega arith)
      4
      (seek sample 2 (start 4))
      (new sample stored_file key)
seek_lem_example =
    seek_lem sample key blocks sample-IsEnv 2 (omega arith) (omega arith) (omega arith)
      (omega arith) (start 4) reader-Stands 4 (omega arith) refl (omega arith)

-- The reader after the last byte of the second block.
abbrev at_end : RingCryptoRead
at_end = record {
  input = some (record stored_file { cursor = 11 });
  key = key;
  buf = record {
    buf = 1 ∷ 7 ∷ 13 ∷ 14 ∷ 42 ∷ 46 ∷ [];
    pos_write = 0;
    pos_read = 4;
    available = 4;
    dirty = false;
  };
  last_nonce = some (1 ∷ 7 ∷ []);
  block_index = 2;
}

at_end-Inside : Inside sample key blocks 1 (13 ∷ 14 ∷ []) [] 2 at_end
at_end-Inside = record {
  over = record {
    file = record stored_file { cursor = 11 };
    is_open = refl;
    burst = omega arith;
    same_key = refl;
    buf_valid = omega arith;
    buf_len = refl;
    whole = (second_block, first_is_sealed, ([], second_is_sealed, refl));
    cut = (refl, (omega arith, omega arith));
    small = omega arith;
    few = omega arith;
  };
  here = refl;
  index = refl;
  sealed = refl;
  pos = refl;
  available = refl;
  plain = refl;
}

seek-after_end_example :
    (r : RingCryptoRead) × (read sample 2 at_end ≡ (ok [], r))
    × (seek sample 2 (start 3) r ≡ (ok 3, r))
    × (read sample 2 r ≡ (ok [], r))
    × (drop 3 (flatten blocks) ≢ [])
seek-after_end_example =
    seek-after_end sample key blocks sample-IsEnv 2 (omega arith) (omega arith) (omega arith) 2
      (omega arith) at_end-Inside (omega arith) (omega arith)
