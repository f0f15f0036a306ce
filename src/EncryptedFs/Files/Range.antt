-- ===== src/EncryptedFs/Files/Range.antt =====
-- src/encryptedfs.rs, `copy_file_range`: one read, and writes until `size` bytes are counted.
use encryptedfs.Prelude.{
  ℕ, zero, suc, ◌+◌, ◌&&◌, ◌||◌, List, ltb, ◌==◌, if◌then◌else◌, length, drop, Exec, pure, raise,
  gets, ◌>>=◌, ◌>>◌, raise_if,
}
use encryptedfs.EncryptedFs.{FsError, invalid_inode_type, other, diverged, panicked}
use encryptedfs.EncryptedFs.Tree.{is_dir}
use encryptedfs.EncryptedFs.Files.{Streams, Opened, read, write}

module _ {R W : Type 0} (streams : Streams R W) (max_len now : ℕ) where
  -- The loop at `copied`; each round writes `buf[copied..len]` to the same offset, which panics where
  -- `copied` is beyond `len`, the number of bytes read.
  unfoldable pub copy_loop : ℕ → ℕ → ℕ → ℕ → ℕ → List ℕ → ℕ → Exec FsError (Opened R W) (Unit {0})
  copy_loop zero dest_ino dest_offset dest_fh size bytes copied = raise diverged
  copy_loop (suc fuel) dest_ino dest_offset dest_fh size bytes copied = do
    raise_if (ltb copied size && ltb (length bytes) copied) panicked
    let round = do
      len ← write streams max_len now dest_ino dest_offset (drop copied bytes) dest_fh
      raise_if (len == 0 && ltb copied size) other
      copy_loop fuel dest_ino dest_offset dest_fh size bytes (copied + len)
    if ltb copied size then round else pure tt

  unfoldable pub copy_file_range : ℕ → ℕ → ℕ → ℕ → ℕ → ℕ → ℕ → Exec FsError (Opened R W) ℕ
  copy_file_range src_ino src_offset dest_ino dest_offset size src_fh dest_fh = do
    s ← gets (λ s. s)
    raise_if (is_dir src_ino s.fs || is_dir dest_ino s.fs) invalid_inode_type
    bytes ← read streams now src_ino src_offset size src_fh
    let copy_all = do
      copy_loop (suc size) dest_ino dest_offset dest_fh size bytes 0
      pure (length bytes)
    if length bytes == 0 then pure 0 else copy_all
