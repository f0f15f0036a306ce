-- ===== src/EncryptedFs/Files/Resize.antt =====
-- src/encryptedfs.rs, `set_len` and `flush_and_reset_writers`: the contents are copied to a new file
-- of the wanted length, which then takes the place of the old one. A time is that of the whole call.
pub mod Contents
pub mod Kept
use encryptedfs.Prelude.{
  ℕ, ◌-◌, Bool, true, false, Option, none, some, List, [], ltb, ◌==◌, if◌then◌else◌, Exec, pure,
  gets, lift, ◌>>=◌, ◌>>◌, modify, raise_if, when, Result, ok, err,
}
use encryptedfs.Prelude.Assoc.{lookup, insert}
use encryptedfs.Io.{IoError}
use encryptedfs.Stream
use encryptedfs.EncryptedFs.{
  FsError, io, inode_not_found, invalid_inode_type, invalid_file_handle, max_filesize_exceeded,
  other, diverged, panicked, invalid_input,
}
use encryptedfs.EncryptedFs.Attr.{
  nothing_set, with_size, with_atime, with_mtime, with_ctime, set_times_and_size, FileType,
  directory, regular_file,
}
use encryptedfs.EncryptedFs.Inodes.{
  get_inode_from_storage, get_attr, set_attr2, set_attr, WriteHandleContext,
}
use encryptedfs.EncryptedFs.Tree.{on_inodes, is_dir, Fs, file}
use encryptedfs.EncryptedFs.Handles.{times_of, times_and_size_of, handles_of, open_contents}
use encryptedfs.EncryptedFs.Files.{
  Streams, Opened, on_fs, on_reader, on_writer, on_tables, is_read_handle, is_write_handle,
  finish_writer, reset_handles, reset_readers, reset_writer, reset_other_writer, after_write,
  renew_reader, renew_writer, write_at, read_at, read, write, skips, set_read_context,
  set_write_context, read_context, write_context, contents_of, set_contents, io_result,
}
use encryptedfs.Crypto.{Env}
use encryptedfs.Crypto.Read
use encryptedfs.Crypto.Write
use encryptedfs.Io.File
use encryptedfs.Io.File.{File}

-- `matches!(kind, FileType::Directory)`.
abbrev pub is_directory : FileType → Bool
is_directory directory = true
is_directory regular_file = false

abbrev pub on_second : {R W A : Type 0} → Exec IoError W A → Exec IoError (R × W) A
on_second m (r, w) = let (o, w') = m w in (o, (r, w'))

-- The bytes of the file that is to be committed.
abbrev pub content_of : Result IoError File → Result IoError (List ℕ)
content_of (ok f) = ok f.content
content_of (err x) = err x

module _ (e : Env) (buf_size : ℕ) where
  -- From a reader of the old contents, of length `old`, to a writer of the new ones.
  unfoldable pub copy_contents :
      ℕ → ℕ → Exec IoError (Read.RingCryptoRead × Write.RingCryptoWrite) File
  copy_contents old size = do
    Stream.copy_exact buf_size (Read.read e) (Write.write_all e)
        (if ltb old size then old else size)
    when (ltb old size) (on_second (Stream.fill_zeros buf_size (Write.write_all e) (size - old)))
    on_second (Write.finish e)

  -- The new contents, of a file that may take `quota` bytes.
  unfoldable pub resize : List ℕ → ℕ → ℕ → ℕ → ℕ → List ℕ → Result IoError (List ℕ)
  resize key quota burst old size bytes =
      let reader = Read.new e (File.open_file bytes 0 burst) key in
      let writer = Write.new e (File.open_file [] quota burst) key in
      content_of (copy_contents old size (reader, writer)).0

module _ {R W : Type 0} (streams : Streams R W)
    (rewrite : ℕ → ℕ → List ℕ → Result IoError (List ℕ)) where
  -- The part of `flush_and_reset_writers` for the handle that has the file open for writing.
  unfoldable pub flush_writer_of :
      ℕ → ℕ → ℕ → Option WriteHandleContext → Exec FsError (Opened R W) (Unit {0})
  flush_writer_of now ino handle none = pure tt
  flush_writer_of now ino handle (some ctx) = do
    finish_writer streams handle ctx.ino
    on_fs (on_inodes (set_attr now ino (set_times_and_size ctx.attr)))
    reset_handles streams now ino (some handle) true
    ctx' ← write_context handle
    renew_writer streams handle ctx' ino

  unfoldable pub flush_handle : ℕ → ℕ → Option ℕ → Exec FsError (Opened R W) (Unit {0})
  flush_handle now ino none = pure tt
  flush_handle now ino (some handle) = do
    ctx ← gets (λ s. lookup handle s.fs.inodes.write_handles)
    flush_writer_of now ino handle ctx

  unfoldable pub flush_and_reset_writers : ℕ → ℕ → Exec FsError (Opened R W) (Unit {0})
  flush_and_reset_writers now ino = do
    handle ← gets (λ s. lookup ino s.fs.inodes.opened_files_for_write)
    flush_handle now ino handle

  -- `File::create` and `set_len(0)`.
  unfoldable pub empty_contents : ℕ → Exec FsError (Opened R W) (Unit {0})
  empty_contents ino s =
      let fs' : Fs = record s.fs { contents = insert ino (file []) s.fs.contents } in
      if is_dir ino s.fs then (err io, s) else (ok tt, record s { fs = fs' })

  -- The new file is committed only if all went well.
  unfoldable pub replace_contents : ℕ → ℕ → ℕ → Exec FsError (Opened R W) (Unit {0})
  replace_contents ino old size = do
    on_fs (open_contents ino)
    bytes ← gets (λ s. contents_of ino s.fs)
    bytes' ← lift (io_result (rewrite old size bytes))
    modify (λ s. record s { fs = set_contents ino bytes' s.fs })

  unfoldable pub set_len : ℕ → ℕ → ℕ → Exec FsError (Opened R W) (Unit {0})
  set_len now ino size = do
    attr ← on_fs (on_inodes (get_attr ino))
    raise_if (is_directory attr.kind) invalid_inode_type
    let cut = do
      flush_and_reset_writers now ino
      if size == 0 then empty_contents ino else replace_contents ino attr.size size
      on_fs (
          on_inodes (
            set_attr2 now ino
              (with_atime now (with_ctime now (with_mtime now (with_size size nothing_set)))) true))
      _ ← on_fs (on_inodes (get_inode_from_storage ino))
      attr' ← on_fs (on_inodes (get_attr ino))
      reset_handles streams now attr'.ino none false
      _ ← on_fs (on_inodes (get_inode_from_storage ino))
      _ ← on_fs (on_inodes (get_attr ino))
      pure tt
    if size == attr.size then pure tt else cut
