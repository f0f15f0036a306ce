-- ===== src/EncryptedFs/Files.antt =====
-- src/encryptedfs.rs: what is done with open files: `read`, `write` and `reset_handles`. The streams
-- behind the handles are those of src/crypto, which the code holds as trait objects: here they are
-- what `Streams` asks for. A stream works on the bytes of its file, which all streams of a file
-- share. `now` is the time of the whole operation.
pub mod Release
pub mod Range
pub mod Slice
pub mod Frame
pub mod Writer
pub mod Kept
pub mod Run
pub mod Short
pub mod Ring
pub mod Resize
use encryptedfs.Prelude.{
  ℕ, ◌+◌, ◌-◌, Bool, true, false, not, Option, none, some, List, [], ◌∷◌, ltb, ◌==◌, if◌then◌else◌,
  length, take, Exec, pure, gets, lift, ◌>>=◌, ◌>>◌, modify, raise_if, when, Result, ok, err,
}
use encryptedfs.Prelude.Assoc.{Assoc, lookup, contains, insert, remove}
use encryptedfs.Io.{IoError}
use encryptedfs.Stream
use encryptedfs.EncryptedFs.{
  FsError, io, inode_not_found, invalid_inode_type, invalid_file_handle, max_filesize_exceeded,
  other, diverged, panicked, invalid_input,
}
use encryptedfs.EncryptedFs.Attr.{set_times_and_size, set_times}
use encryptedfs.EncryptedFs.Inodes.{
  get_inode_from_storage, set_attr, ReadHandleContext, WriteHandleContext, Inodes,
}
use encryptedfs.EncryptedFs.Tree.{on_inodes, exists, is_dir, is_file, Fs, file, dir}
use encryptedfs.EncryptedFs.Handles.{times_of, times_and_size_of, handles_of, open_contents}

-- `CryptoReadSeek` and `CryptoWriteSeek`: a stream of its own state, which is given the bytes of its
-- file; a writer changes them.
pub record Streams (R W : Type 0) : Type 0 where
  -- `create_read_seek` and `create_write_seek`, which need the key.
  pub create_read_seek : Result FsError R
  pub create_write_seek : Result FsError W
  -- `seek` to `SeekFrom::Start`, `stream_position`, and one call of `read`.
  pub seek_read : List ℕ → ℕ → Exec IoError R ℕ
  pub read_position : List ℕ → Exec IoError R ℕ
  pub read_some : List ℕ → ℕ → Exec IoError R (List ℕ)
  pub seek_write : ℕ → Exec IoError (W × List ℕ) ℕ
  pub write_position : Exec IoError (W × List ℕ) ℕ
  pub write_some : List ℕ → Exec IoError (W × List ℕ) ℕ
  pub flush : Exec IoError (W × List ℕ) (Unit {0})
  pub finish : Exec IoError (W × List ℕ) (Unit {0})

-- The file system with the streams of its handles: the fields `reader` and `writer` of the contexts,
-- where a handle without a stream is one whose stream was taken.
pub record Opened (R W : Type 0) : Type 0 where
  pub fs : Fs
  pub readers : Assoc R
  pub writers : Assoc W

-- `?` on an `io::Error`; a panic is one.
abbrev pub fs_error : IoError → FsError
fs_error IoError.panicked = panicked
fs_error IoError.diverged = diverged
fs_error e = io

abbrev pub io_result : {A : Type 0} → Result IoError A → Result FsError A
io_result (ok a) = ok a
io_result (err e) = err (fs_error e)

abbrev pub contents_of : ℕ → Fs → List ℕ
contents_of ino s = elim (lookup ino s.contents) [
  | none ↦ []
  | some (file bytes) ↦ bytes
  | some (dir d) ↦ []
]

abbrev pub set_contents : ℕ → List ℕ → Fs → Fs
set_contents ino bytes s =
    if is_file ino s then record s { contents = insert ino (file bytes) s.contents } else s

module _ {R W : Type 0} where
  abbrev pub on_fs : {A : Type 0} → Exec FsError Fs A → Exec FsError (Opened R W) A
  on_fs m s = let (r, fs) = m s.fs in (r, record s { fs = fs })

  -- A call on the reader of a handle, or on its writer, over the contents of the file.
  unfoldable pub on_reader :
      {A : Type 0} → ℕ → ℕ → (List ℕ → Exec IoError R A) → Exec FsError (Opened R W) A
  on_reader handle ino m s = elim (lookup handle s.readers) [
    | none ↦ (err panicked, s)
    | some reader ↦
        (let (r, reader') = m (contents_of ino s.fs) reader in
          (io_result r, record s { readers = insert handle reader' s.readers }))
  ]

  unfoldable pub on_writer :
      {A : Type 0} → ℕ → ℕ → Exec IoError (W × List ℕ) A → Exec FsError (Opened R W) A
  on_writer handle ino m s = elim (lookup handle s.writers) [
    | none ↦ (err panicked, s)
    | some writer ↦
        (let (r, (writer', bytes)) = m (writer, contents_of ino s.fs) in
          (
            io_result r,
            record s {
              writers = insert handle writer' s.writers;
              fs = set_contents ino bytes s.fs;
            },
          ))
  ]

  -- `get(&handle).unwrap()` on a table.
  unfoldable pub read_context : ℕ → Exec FsError (Opened R W) ReadHandleContext
  read_context handle s = elim (lookup handle s.fs.inodes.read_handles) [
    | none ↦ (err panicked, s)
    | some ctx ↦ (ok ctx, s)
  ]

  unfoldable pub write_context : ℕ → Exec FsError (Opened R W) WriteHandleContext
  write_context handle s = elim (lookup handle s.fs.inodes.write_handles) [
    | none ↦ (err panicked, s)
    | some ctx ↦ (ok ctx, s)
  ]

  abbrev pub on_tables : (Inodes → Inodes) → Opened R W → Opened R W
  on_tables g s = record s { fs = record s.fs { inodes = g s.fs.inodes } }

  abbrev pub set_read_context : ℕ → ReadHandleContext → Exec FsError (Opened R W) (Unit {0})
  set_read_context handle ctx =
      modify (on_tables (λ i. record i { read_handles = insert handle ctx i.read_handles }))

  abbrev pub set_write_context : ℕ → WriteHandleContext → Exec FsError (Opened R W) (Unit {0})
  set_write_context handle ctx =
      modify (on_tables (λ i. record i { write_handles = insert handle ctx i.write_handles }))

  -- `is_read_handle` and `is_write_handle`.
  abbrev pub is_read_handle : ℕ → Opened R W → Bool
  is_read_handle fh s = contains fh s.fs.inodes.read_handles

  abbrev pub is_write_handle : ℕ → Opened R W → Bool
  is_write_handle fh s = contains fh s.fs.inodes.write_handles

-- The filter of `reset_handles`.
abbrev pub skips : Option ℕ → ℕ → Bool
skips none handle = false
skips (some fh) handle = handle == fh

module _ {R W : Type 0} (streams : Streams R W) where
  -- What `read` does under the lock, for a buffer that is not empty.
  unfoldable pub read_at :
      ℕ → ℕ → ℕ → ℕ → ℕ → ReadHandleContext → Exec FsError (Opened R W) (List ℕ)
  read_at now ino offset n handle ctx = do
    _ ← on_reader handle ino (λ bytes. streams.seek_read bytes offset)
    here ← on_reader handle ino streams.read_position
    let fill = do
      bytes ← on_reader handle ino (λ bytes. Stream.read (streams.read_some bytes) n)
      set_read_context handle (record ctx { attr = record ctx.attr { atime = now } })
      pure bytes
    if here == offset then fill else pure []

  -- `read` into a buffer of length `n`; the result is what it is filled with.
  unfoldable pub read : ℕ → ℕ → ℕ → ℕ → ℕ → Exec FsError (Opened R W) (List ℕ)
  read now ino offset n handle = do
    s ← gets (λ s. s)
    raise_if (not (exists ino s.fs)) inode_not_found
    raise_if (not (is_file ino s.fs)) invalid_inode_type
    raise_if (not (is_read_handle handle s)) invalid_file_handle
    ctx ← read_context handle
    raise_if (not (ctx.ino == ino)) invalid_file_handle
    raise_if (is_dir ino s.fs) invalid_inode_type
    if n == 0 then pure [] else read_at now ino offset n handle ctx

  -- `ctx.writer.take().unwrap().finish()`: the handle has no writer after it, also if it fails.
  unfoldable pub finish_writer : ℕ → ℕ → Exec FsError (Opened R W) (Unit {0})
  finish_writer handle ino s = elim (lookup handle s.writers) [
    | none ↦ (err panicked, s)
    | some writer ↦
        (let (r, (_, bytes)) = streams.finish (writer, contents_of ino s.fs) in
          (
            io_result r,
            record s { writers = remove handle s.writers; fs = set_contents ino bytes s.fs },
          ))
  ]

  -- A new reader, or writer, on the contents, with the times of the inode on disk.
  unfoldable pub renew_reader : ℕ → ReadHandleContext → ℕ → Exec FsError (Opened R W) (Unit {0})
  renew_reader handle ctx ino = do
    attr ← on_fs (on_inodes (get_inode_from_storage ino))
    on_fs (open_contents ino)
    reader ← lift streams.create_read_seek
    modify (λ s. record s { readers = insert handle reader s.readers })
    set_read_context handle (record ctx { attr = times_of attr })

  unfoldable pub renew_writer : ℕ → WriteHandleContext → ℕ → Exec FsError (Opened R W) (Unit {0})
  renew_writer handle ctx ino = do
    on_fs (open_contents ino)
    writer ← lift streams.create_write_seek
    modify (λ s. record s { writers = insert handle writer s.writers })
    attr ← on_fs (on_inodes (get_inode_from_storage ino))
    set_write_context handle (record ctx { attr = times_and_size_of attr })

  -- The loop of `reset_handles` over the read handles of a file, but for `skip`.
  unfoldable pub reset_readers : ℕ → ℕ → Option ℕ → List ℕ → Exec FsError (Opened R W) (Unit {0})
  reset_readers now ino skip [] = pure tt
  reset_readers now ino skip (handle ∷ handles) =
      let reset = do
        ctx ← read_context handle
        on_fs (on_inodes (set_attr now ino (set_times ctx.attr)))
        renew_reader handle ctx ino
      in let rest = reset_readers now ino skip handles in
        let here = if skips skip handle then pure tt else reset in here >>= λ _. rest

  -- The part of `reset_handles` for the one writer of a file.
  unfoldable pub reset_writer : ℕ → ℕ → Bool → ℕ → Exec FsError (Opened R W) (Unit {0})
  reset_writer now ino save_attr handle s =
      let reset = do
        ctx ← write_context handle
        on_writer handle ctx.ino streams.finish
        when save_attr (on_fs (on_inodes (set_attr now ino (set_times_and_size ctx.attr))))
        renew_writer handle ctx ino
      in if is_write_handle handle s then reset s else (ok tt, s)

  -- The writer of a file, if it has one and that is not skipped.
  unfoldable pub reset_other_writer :
      ℕ → ℕ → Option ℕ → Bool → Option ℕ → Exec FsError (Opened R W) (Unit {0})
  reset_other_writer now ino skip save_attr none = pure tt
  reset_other_writer now ino skip save_attr (some fh) =
      if skips skip fh then pure tt else reset_writer now ino save_attr fh

  unfoldable pub reset_handles : ℕ → ℕ → Option ℕ → Bool → Exec FsError (Opened R W) (Unit {0})
  reset_handles now ino skip save_attr = do
    handles ← gets (λ s. handles_of ino s.fs.inodes.opened_files_for_read)
    reset_readers now ino skip handles
    writer ← gets (λ s. lookup ino s.fs.inodes.opened_files_for_write)
    reset_other_writer now ino skip save_attr writer

  -- What `write` does under the lock, with a buffer that is not empty: the number of bytes written.
  unfoldable pub write_at : ℕ → ℕ → ℕ → ℕ → List ℕ → ℕ → Exec FsError (Opened R W) (Option ℕ)
  write_at max_len now ino offset buf handle = do
    raise_if (ltb max_len offset) (max_filesize_exceeded max_len)
    ctx ← write_context handle
    here ← on_writer handle ino (streams.seek_write offset)
    let fitting = if ltb max_len (offset + length buf) then take (max_len - offset) buf else buf
    let store = do
      len ← on_writer handle ino (streams.write_some fitting)
      behind ← on_writer handle ino streams.write_position
      set_write_context handle (record ctx {
        attr = record ctx.attr {
          size = if ltb ctx.attr.size behind then behind else ctx.attr.size;
          mtime = now;
          ctime = now;
          atime = now;
        };
      })
      pure (some len)
    if here == offset then store else pure none

  -- The end of `write`, which is skipped where the place was not reached.
  unfoldable pub after_write : ℕ → ℕ → ℕ → Option ℕ → Exec FsError (Opened R W) ℕ
  after_write now ino handle none = pure 0
  after_write now ino handle (some len) = do reset_handles now ino (some handle) true; pure len

  -- `write`; `max_len` is `max_plaintext_len` of the cipher.
  unfoldable pub write : ℕ → ℕ → ℕ → ℕ → List ℕ → ℕ → Exec FsError (Opened R W) ℕ
  write max_len now ino offset buf handle = do
    s ← gets (λ s. s)
    raise_if (not (exists ino s.fs)) inode_not_found
    raise_if (not (is_file ino s.fs)) invalid_inode_type
    raise_if (not (is_write_handle handle s)) invalid_file_handle
    ctx ← write_context handle
    raise_if (not (ctx.ino == ino)) invalid_file_handle
    let store = do
      written ← write_at max_len now ino offset buf handle
      after_write now ino handle written
    if length buf == 0 then pure 0 else store
