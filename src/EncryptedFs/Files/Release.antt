-- ===== src/EncryptedFs/Files/Release.antt =====
-- src/encryptedfs.rs: `flush` and `release` of a handle.
use encryptedfs.Prelude.{
  ℕ, Bool, true, false, not, ◌||◌, Option, none, some, List, [], ◌∷◌, ◌==◌, if◌then◌else◌, Exec,
  pure, gets, ◌>>=◌, ◌>>◌, modify, raise_if, ok, err,
}
use encryptedfs.Prelude.Assoc.{Assoc, lookup, insert, remove}
use encryptedfs.EncryptedFs.{FsError, invalid_file_handle, panicked}
use encryptedfs.EncryptedFs.Attr.{set_times_and_size, set_times}
use encryptedfs.EncryptedFs.Inodes.{set_attr, ReadHandleContext, WriteHandleContext}
use encryptedfs.EncryptedFs.Tree.{on_inodes}
use encryptedfs.EncryptedFs.Handles.{open_contents}
use encryptedfs.EncryptedFs.Files.{
  Streams, Opened, on_fs, on_writer, on_tables, is_read_handle, finish_writer, reset_handles,
}

-- A handle leaves the set of its file's read handles, and an empty set its table.
abbrev pub drop_handle : ℕ → List ℕ → List ℕ
drop_handle fh [] = []
drop_handle fh (h ∷ hs) = if h == fh then drop_handle fh hs else h ∷ drop_handle fh hs

abbrev pub set_handles : ℕ → List ℕ → Assoc (List ℕ) → Assoc (List ℕ)
set_handles ino [] m = remove ino m
set_handles ino (h ∷ hs) m = insert ino (h ∷ hs) m

module _ {R W : Type 0} (streams : Streams R W) where
  -- `expect("handle is missing")` on the set of the file.
  unfoldable pub close_read : ℕ → ℕ → Exec FsError (Opened R W) (Unit {0})
  close_read handle ino s = elim (lookup ino s.fs.inodes.opened_files_for_read) [
    | none ↦ (err panicked, s)
    | some hs ↦ (
      ok tt,
      on_tables
          (λ i. record i {
            opened_files_for_read = set_handles ino (drop_handle handle hs) i.opened_files_for_read;
          })
          s,
    )
  ]

  -- A context that was removed from the table of read handles, if the handle was one.
  unfoldable pub release_reader : ℕ → ℕ → Option ReadHandleContext → Exec FsError (Opened R W) Bool
  release_reader now handle none = pure false
  release_reader now handle (some ctx) = do
    modify (λ s. record s { readers = remove handle s.readers })
    close_read handle ctx.ino
    on_fs (on_inodes (set_attr now ctx.ino (set_times ctx.attr)))
    pure true

  unfoldable pub release_writer : ℕ → ℕ → Option WriteHandleContext → Exec FsError (Opened R W) Bool
  release_writer now handle none = pure false
  release_writer now handle (some ctx) = do
    finish_writer streams handle ctx.ino
    on_fs (on_inodes (set_attr now ctx.ino (set_times_and_size ctx.attr)))
    modify (
        on_tables
          (λ i. record i { opened_files_for_write = remove ctx.ino i.opened_files_for_write }))
    reset_handles streams now ctx.ino (some handle) true
    pure true

  -- `remove(&handle)` of the two tables.
  abbrev pub take_read_context : ℕ → Exec FsError (Opened R W) (Option ReadHandleContext)
  take_read_context handle s = (
    ok (lookup handle s.fs.inodes.read_handles),
    on_tables (λ i. record i { read_handles = remove handle i.read_handles }) s,
  )

  abbrev pub take_write_context : ℕ → Exec FsError (Opened R W) (Option WriteHandleContext)
  take_write_context handle s = (
    ok (lookup handle s.fs.inodes.write_handles),
    on_tables (λ i. record i { write_handles = remove handle i.write_handles }) s,
  )

  unfoldable pub release : ℕ → ℕ → Exec FsError (Opened R W) (Unit {0})
  release now handle =
      let close = do
        read_ctx ← take_read_context handle
        was_read ← release_reader now handle read_ctx
        write_ctx ← take_write_context handle
        was_write ← release_writer now handle write_ctx
        raise_if (not (was_read || was_write)) invalid_file_handle
      in if handle == 0 then pure tt else close

  -- The part of `flush` for a handle with a writer, whose contents are then opened to be synced.
  unfoldable pub flush_writer :
      ℕ → ℕ → Bool → Option WriteHandleContext → Exec FsError (Opened R W) (Unit {0})
  flush_writer now handle valid none = raise_if (not valid) invalid_file_handle
  flush_writer now handle valid (some ctx) = do
    on_writer handle ctx.ino streams.flush
    on_fs (open_contents ctx.ino)
    reset_handles streams now ctx.ino (some handle) true

  unfoldable pub flush : ℕ → ℕ → Exec FsError (Opened R W) (Unit {0})
  flush now handle =
      let write_out = do
        valid ← gets (λ s. is_read_handle handle s)
        ctx ← gets (λ s. lookup handle s.fs.inodes.write_handles)
        flush_writer now handle valid ctx
      in if handle == 0 then pure tt else write_out
