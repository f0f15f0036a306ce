-- ===== src/Tests/Files.antt =====
-- The theorems on open files, at concrete inputs.
use encryptedfs.Io.{IoError}
use encryptedfs.Prelude.{Result, ℕ, ◌+◌, ◌≡◌, refl, List, [], ◌∷◌, arith, length, take, splice, ok}
use encryptedfs.Io.File.{File}
use encryptedfs.Stream
use encryptedfs.Stream.{read_from}
use encryptedfs.EncryptedFs.Attr.{merge_attr}
use encryptedfs.EncryptedFs.Inodes.{
  get_inode_from_storage, put_cache, get_inode_from_cache_or_storage, merge_reads, merge_open_reads,
  merge_open_write, get_attr, write_inode_to_storage, set_attr2, set_attr,
}
use encryptedfs.EncryptedFs.Tree.{file}
use encryptedfs.EncryptedFs.Handles.{open_contents}
use encryptedfs.EncryptedFs.Handles.Writers.{IsHandles}
use encryptedfs.EncryptedFs.Files.{
  on_reader, on_writer, read_context, write_context, read_at, read, renew_reader, reset_readers,
  reset_other_writer, reset_handles, write_at, after_write, write, Streams, Opened,
}
use encryptedfs.EncryptedFs.Files.Range.{copy_file_range}
use encryptedfs.EncryptedFs.Files.Run.{
  run, run-IsHandles, write_request, release_request, set_len_request,
}
use encryptedfs.EncryptedFs.Files.Ring.{ring_reader, ring_reader-IsSeekReader}
use encryptedfs.EncryptedFs.Files.Slice.{read_lem}
use encryptedfs.EncryptedFs.Files.Short.{copy_file_range_lem}
use encryptedfs.Crypto.Read.{new}
use encryptedfs.Tests.Sample.{sample, sample-IsEnv, key}
use encryptedfs.Tests.Encryption.{stored_file, stored, room_for}
use encryptedfs.EncryptedFs.Files.Resize.{resize}
use encryptedfs.EncryptedFs.Files.Resize.Contents.{resize_lem}
use encryptedfs.Crypto.Write.Finish.{Stores}
use encryptedfs.Tests.Seeking.{blocks, blocks_stored, reader-Stands}
use encryptedfs.Tests.Attributes.{inodes}

-- Streams that are cursors into the bytes of the file.
abbrev plain : {R : Type 0} → R → Streams R ℕ
plain r = record {
  create_read_seek = ok r;
  create_write_seek = ok 0;
  seek_read = λ bytes n s. (ok n, s);
  read_position = λ bytes s. (ok 0, s);
  read_some = λ bytes n s. (ok (take n bytes), s);
  seek_write = λ n s. (ok n, (n, s.1));
  write_position = λ s. (ok s.0, s);
  write_some = λ src s. (ok (length src), (s.0 + length src, splice s.0 src s.1));
  flush = λ s. (ok tt, s);
  finish = λ s. (ok tt, s);
}

-- One file, which two handles have open for reading and one for writing.
abbrev opened : {R : Type 0} → List ℕ → R → Opened R ℕ
opened bytes r = record {
  fs = record {
    inodes = inodes;
    contents = (7, file bytes) ∷ [];
    current_handle = 6;
    encryptions = 0;
    dir_entries_name_cache = [];
    dir_entries_meta_cache = [];
  };
  readers = (3, r) ∷ (4, r) ∷ [];
  writers = (5, 0) ∷ [];
}

one_file-IsHandles : {R : Type 0} (r : R) → IsHandles (opened (1 ∷ 2 ∷ []) r).fs
one_file-IsHandles r = record {
  writers = λ fh ctx e. ground (arith, e);
  drawn = λ fh ctx e. ground (arith, e);
}

abbrev cursors : Streams ℕ ℕ
cursors = plain 0

-- The contents, sealed with the test AEAD, with another length.
abbrev shrink : ℕ → ℕ → List ℕ → Result IoError (List ℕ)
shrink = resize sample 2 key 100 1

run-IsHandles_example :
    IsHandles
      (run cursors 1000 shrink
        (write_request 30 7 0 (8 ∷ 9 ∷ []) 5 ∷ set_len_request 31 7 1 ∷ release_request 32 5 ∷ [])
        (opened (1 ∷ 2 ∷ []) 0)).fs
run-IsHandles_example =
    run-IsHandles cursors 1000 shrink
      (write_request 30 7 0 (8 ∷ 9 ∷ []) 5 ∷ set_len_request 31 7 1 ∷ release_request 32 5 ∷ [])
      (opened (1 ∷ 2 ∷ []) 0) (one_file-IsHandles {R = ℕ} 0)

-- A file of five bytes, read from the second byte on.
read_lem_example :
    (read
      (ring_reader sample 2 (plain (new sample stored_file key)))
      30
      7
      2
      9
      3
      (opened stored_file.content (new sample stored_file key))).0
    ≡ ok (12 ∷ 13 ∷ 14 ∷ [])
read_lem_example =
    read_lem
      (ring_reader-IsSeekReader sample key blocks sample-IsEnv 2 (omega arith) (omega arith)
        (omega arith) (omega arith) (omega arith) (plain (new sample stored_file key))
        stored_file.content)
      30 7 2 9 3 0 (opened stored_file.content (new sample stored_file key))
      (record { ino = 7; attr = record { atime = 12; mtime = 10; ctime = 10; crtime = 10 } })
      (new sample stored_file key) refl refl refl refl refl reader-Stands (omega arith)
      (omega arith)

-- A file of five bytes, made longer.
resize_lem_example :
    (f : File) × (resize sample 2 key 100 1 5 8 stored_file.content ≡ ok f.content)
    × Stores sample key (10 ∷ 11 ∷ 12 ∷ 13 ∷ 14 ∷ 0 ∷ 0 ∷ 0 ∷ []) f
resize_lem_example =
    resize_lem sample key sample-IsEnv 2 100 1 (omega arith) (omega arith) (omega arith)
      {f = stored_file} {stored = stored} 8 blocks_stored (omega arith) (room_for 8 (omega arith))

abbrev start_state : Opened ℕ ℕ
start_state = opened (1 ∷ 2 ∷ 3 ∷ []) 0

abbrev after_read : Opened ℕ ℕ
after_read = (read cursors 30 7 0 3 3 start_state).1

abbrev written : Opened ℕ ℕ
written = (write cursors 1000 30 7 1 (1 ∷ 2 ∷ 3 ∷ []) 5 after_read).1

copy_file_range_lem_example :
    let o = copy_file_range cursors 1000 30 7 0 7 1 3 3 5 start_state in
    (o.1 ≡ written) × (o.0 ≡ ok 3)
unfolding read read_at on_reader read_context Stream.read read_from write write_at write_context
    on_writer after_write reset_handles reset_readers renew_reader reset_other_writer set_attr
    set_attr2 get_attr get_inode_from_cache_or_storage get_inode_from_storage merge_open_write
    merge_open_reads merge_reads merge_attr write_inode_to_storage put_cache open_contents
copy_file_range_lem_example =
    copy_file_range_lem cursors 1000 30 7 0 7 1 3 3 5 start_state after_read written
      (1 ∷ 2 ∷ 3 ∷ []) refl refl (omega arith) (omega arith) refl
