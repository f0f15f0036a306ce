-- ===== src/Tests/Encryption.antt =====
-- The theorems on encrypted streams, with the small AEAD.
use encryptedfs.Crypto.Decrypt.Authentic.{decrypt_block-unread}
use encryptedfs.Crypto.{aad_of}
use encryptedfs.BufMut.Valid.{IsValid}
use encryptedfs.Prelude.{
  ℕ, ◌⊎◌, ◌≢◌, some, ◌≤◌, ◌≡◌, refl, none, [], ◌∷◌, arith, ok, inr, true, false, List, ◌++◌,
  replicate,
}
use encryptedfs.Io.File.{File}
use encryptedfs.Io.File
use encryptedfs.Stream.ToEnd.{read_to_end}
use encryptedfs.BufMut
use encryptedfs.Crypto.{le_bytes}
use encryptedfs.Crypto.Write
use encryptedfs.Crypto.Write.{RingCryptoWrite}
use encryptedfs.Crypto.Write.Holds.{Holds, HasRoom, new-Holds}
use encryptedfs.Crypto.Write.Steps.{write-Holds}
use encryptedfs.Crypto.Write.Finish.{Stores, write_all_lem, finish_lem}
use encryptedfs.Crypto.Read
use encryptedfs.Crypto.RoundTrip.{write_pieces, write_then_read, reopen}
use encryptedfs.Tests.Sample.{sample, sample-IsEnv, key, pieces, empty_file}
use encryptedfs.Crypto.Read.Length.{get_plaintext_len_lem}
use encryptedfs.Crypto.Copy.{copy_from_file}
use encryptedfs.Crypto.Copy.Range.{copy_from_file_lem}
use encryptedfs.Crypto.Decrypt.{decrypt_block, Decrypter}
use encryptedfs.Crypto.Decrypt.Open.{decrypt_block_lem, Opened}
use encryptedfs.Crypto.Format.{SealedBlock}
use encryptedfs.Crypto.Read.Ahead.{read_reads, Ahead}
use encryptedfs.Io.Contract.{IsReader}
use encryptedfs.Io.Kept.{file_writes, FileWritten}

-- Room for twelve bytes of data at most.
pub room_for : (n : ℕ) → n ≤ 12 → HasRoom sample 100 n
room_for n h = record { blocks = λ k l. omega arith }

write_then_read_example :
    (f : File) × ((write_pieces sample pieces (Write.new sample empty_file key)).0 ≡ ok f)
    × ((read_to_end (Read.read sample) 2 6 [] (Read.new sample (reopen f 1) key)).0
        ≡ ok (10 ∷ 11 ∷ 12 ∷ 13 ∷ 14 ∷ []))
write_then_read_example =
    write_then_read sample key empty_file pieces 2 1 sample-IsEnv refl refl (omega arith)
      (room_for 5 (omega arith)) (omega arith) (omega arith) (omega arith)

abbrev writer : RingCryptoWrite
writer = Write.new sample empty_file key

writer-Holds : Holds sample 100 key [] writer
writer-Holds = new-Holds sample 100 key empty_file sample-IsEnv refl refl refl

write-Holds_example :
    let (r, w) = Write.write sample (1 ∷ 2 ∷ 3 ∷ 4 ∷ []) writer in
    (r ≡ ok 3) × Holds sample 100 key (1 ∷ 2 ∷ 3 ∷ []) w
unfolding Write.new BufMut.new
write-Holds_example =
    write-Holds sample 100 key sample-IsEnv writer-Holds (room_for 0 (omega arith)) (omega arith)
      (1 ∷ 2 ∷ 3 ∷ 4 ∷ [])

-- A writer whose buffer is full.
abbrev full_writer : RingCryptoWrite
full_writer = (Write.write sample (1 ∷ 2 ∷ 3 ∷ 4 ∷ []) writer).1

full_writer-Holds : Holds sample 100 key (1 ∷ 2 ∷ 3 ∷ []) full_writer
unfolding Write.new BufMut.new
full_writer-Holds =
    (write-Holds sample 100 key sample-IsEnv writer-Holds (room_for 0 (omega arith)) (omega arith)
      (1 ∷ 2 ∷ 3 ∷ 4 ∷ [])).1

write_all_lem_example :
    let (r, w) = Write.write_all sample (4 ∷ 5 ∷ 6 ∷ 7 ∷ []) full_writer in
    (r ≡ ok tt) × Holds sample 100 key (1 ∷ 2 ∷ 3 ∷ 4 ∷ 5 ∷ 6 ∷ 7 ∷ []) w
write_all_lem_example =
    write_all_lem sample 100 key sample-IsEnv (omega arith) (4 ∷ 5 ∷ 6 ∷ 7 ∷ []) (1 ∷ 2 ∷ 3 ∷ [])
      full_writer full_writer-Holds (room_for 7 (omega arith))

finish_lem_example :
    (f : File) × ((Write.finish sample full_writer).0 ≡ ok f)
    × ((Write.finish sample full_writer).1.out ≡ none)
    × Stores sample key (1 ∷ 2 ∷ 3 ∷ []) f
finish_lem_example =
    finish_lem sample 100 key sample-IsEnv full_writer-Holds (room_for 3 (omega arith))

-- A stream of two blocks in a file that gives one byte at a time.
abbrev pub second_block : List ℕ
second_block = 1 ∷ 7 ∷ 13 ∷ 14 ∷ 42 ∷ []

abbrev pub stored_file : File
stored_file = record {
  content = (0 ∷ 7 ∷ 10 ∷ 11 ∷ 12 ∷ 46 ∷ []) ++ second_block;
  cursor = 0;
  quota = 0;
  burst = 1;
}

abbrev pub stored : List ℕ
stored = 10 ∷ 11 ∷ 12 ∷ 13 ∷ 14 ∷ []

pub first_is_sealed : SealedBlock sample key 0 (10 ∷ 11 ∷ 12 ∷ []) second_block stored_file.content
unfolding le_bytes
first_is_sealed = record {
  nonce = 0 ∷ 7 ∷ [];
  cipher = 10 ∷ 11 ∷ 12 ∷ [];
  tag = 46 ∷ [];
  layout = refl;
  nonce_length = refl;
  cipher_length = refl;
  tag_length = refl;
  opened = refl;
}

pub second_is_sealed : SealedBlock sample key 1 (13 ∷ 14 ∷ []) [] second_block
unfolding le_bytes
second_is_sealed = record {
  nonce = 1 ∷ 7 ∷ [];
  cipher = 13 ∷ 14 ∷ [];
  tag = 42 ∷ [];
  layout = refl;
  nonce_length = refl;
  cipher_length = refl;
  tag_length = refl;
  opened = refl;
}

stored_file-Stores : Stores sample key stored stored_file
stored_file-Stores = record {
  blocks = (10 ∷ 11 ∷ 12 ∷ []) ∷ (13 ∷ 14 ∷ []) ∷ [];
  sealed = (second_block, first_is_sealed, ([], second_is_sealed, refl));
  cut = (refl, (omega arith, omega arith));
  whole = refl;
}

read_reads_example : IsReader (Ahead sample key) (Read.read sample)
read_reads_example = read_reads sample key sample-IsEnv

-- The state in which a new reader meets the first block.
abbrev first_decrypter : Decrypter
first_decrypter = record {
  block_index = 0;
  buf = record { buf = replicate 6 0; pos_write = 0; pos_read = 0; available = 0; dirty = false };
  input = stored_file;
  last_nonce = none;
  key = key;
}

decrypt_block_lem_example : Opened sample (10 ∷ 11 ∷ 12 ∷ []) second_block first_decrypter
decrypt_block_lem_example =
    decrypt_block_lem sample first_decrypter (10 ∷ 11 ∷ 12 ∷ []) second_block (omega arith) refl
      (omega arith) first_is_sealed (omega arith) (omega arith) (inr refl)

-- The second block, read where the first belongs.
abbrev swapped : Decrypter
swapped = record first_decrypter { input = record stored_file { content = second_block } }

swapped-IsValid : IsValid swapped.buf
swapped-IsValid = omega arith

decrypt_block-unread_example :
    let (r, d) = decrypt_block sample swapped in
    ((r ≡ ok tt) × (second_block ≡ []) × (BufMut.as_ref_read_available d.buf ≡ []))
    ⊎ (((r ≡ ok tt)
          × (sample.open_within key (1 ∷ 7 ∷ []) (aad_of 0) (13 ∷ 14 ∷ 42 ∷ [])
              ≡ some (BufMut.as_ref_read_available d.buf)))
        ⊎ ((r ≢ ok tt) × (BufMut.as_ref_read_available d.buf ≡ [])))
decrypt_block-unread_example =
    decrypt_block-unread sample swapped sample-IsEnv swapped-IsValid refl (omega arith)

copy_from_file_lem_example :
    let (o, w) = copy_from_file sample 2 key File.write_all stored_file 2 9 true empty_file in
    (o ≡ ok 3) × FileWritten 100 w (12 ∷ 13 ∷ 14 ∷ [])
copy_from_file_lem_example =
    copy_from_file_lem sample key sample-IsEnv (file_writes 100) 2 2 9 (omega arith) (omega arith)
      {f = stored_file} {stored = stored} {before = []} empty_file (omega arith) refl
      stored_file-Stores (omega arith) (record { whole = refl; at_end = refl; same_quota = refl })
      (omega arith)

-- A file that holds one full block: its three bytes are counted as none.
abbrev one_block : File
one_block = record stored_file { content = 0 ∷ 7 ∷ 10 ∷ 11 ∷ 12 ∷ 46 ∷ [] }

one_block-Stores : Stores sample key (10 ∷ 11 ∷ 12 ∷ []) one_block
unfolding le_bytes
one_block-Stores = record {
  blocks = (10 ∷ 11 ∷ 12 ∷ []) ∷ [];
  sealed = (
    [],
    record {
      nonce = 0 ∷ 7 ∷ [];
      cipher = 10 ∷ 11 ∷ 12 ∷ [];
      tag = 46 ∷ [];
      layout = refl;
      nonce_length = refl;
      cipher_length = refl;
      tag_length = refl;
      opened = refl;
    },
    refl,
  );
  cut = (omega arith, omega arith);
  whole = refl;
}

get_plaintext_len_lem_example :
    Read.get_plaintext_len sample (Read.new sample one_block key)
    ≡ (ok 0, Read.new sample one_block key)
unfolding Read.new
get_plaintext_len_lem_example =
    get_plaintext_len_lem sample key sample-IsEnv (omega arith) {f = one_block}
      {written = 10 ∷ 11 ∷ 12 ∷ []} (Read.new sample one_block key) refl one_block-Stores
      (omega arith)
