-- ===== src/EncryptedFs/Handles.antt =====
-- src/encryptedfs.rs: the tables of open handles: `open` and what it calls.
pub mod Writers
pub mod Open
use encryptedfs.Prelude.{
  ℕ, ◌+◌, ◌%◌, ◌^◌, Bool, not, ◌&&◌, none, some, List, [], ◌∷◌, ◌==◌, if◌then◌else◌, Exec, pure,
  ◌>>=◌, ◌>>◌, ok, err,
}
use encryptedfs.Prelude.Assoc.{Assoc, lookup, contains, insert, remove}
use encryptedfs.EncryptedFs.{FsError, io, invalid_input, invalid_inode_type, already_open_for_write}
use encryptedfs.EncryptedFs.Attr.{FileAttr, TimesAndSizeFileAttr, TimesFileAttr}
use encryptedfs.EncryptedFs.Inodes.{
  get_inode_from_storage, get_attr, ReadHandleContext, WriteHandleContext, Inodes,
}
use encryptedfs.EncryptedFs.Tree.{on_inodes, is_dir, is_file, Fs}

-- `TimesFileAttr::from` and `TimesAndSizeFileAttr::from` of a `FileAttr`.
abbrev pub times_of : FileAttr → TimesFileAttr
times_of a = record { atime = a.atime; mtime = a.mtime; ctime = a.ctime; crtime = a.crtime }

abbrev pub times_and_size_of : FileAttr → TimesAndSizeFileAttr
times_and_size_of a = record {
  atime = a.atime;
  mtime = a.mtime;
  ctime = a.ctime;
  crtime = a.crtime;
  size = a.size;
}

unfoldable pub next_handle : Exec FsError Fs ℕ
next_handle s = (ok s.current_handle, record s { current_handle = (s.current_handle + 1) % 2 ^ 64 })

-- A handle in the set of a file's read handles.
abbrev pub add_handle : ℕ → List ℕ → List ℕ
add_handle fh [] = fh ∷ []
add_handle fh (h ∷ hs) = if h == fh then h ∷ hs else h ∷ add_handle fh hs

abbrev pub handles_of : ℕ → Assoc (List ℕ) → List ℕ
handles_of ino m = elim (lookup ino m) [ none ↦ [] | some hs ↦ hs ]

-- `File::open` of the contents.
unfoldable pub open_contents : ℕ → Exec FsError Fs (Unit {0})
open_contents ino s = if is_file ino s then (ok tt, s) else (err io, s)

unfoldable pub insert_read_handle : ℕ → ReadHandleContext → Exec FsError Inodes (Unit {0})
insert_read_handle handle ctx s = (
  ok tt,
  record s {
    read_handles = insert handle ctx s.read_handles;
    opened_files_for_read =
        insert ctx.ino (add_handle handle (handles_of ctx.ino s.opened_files_for_read))
          s.opened_files_for_read;
  },
)

unfoldable pub do_with_read_handle : ℕ → ℕ → Exec FsError Fs (Unit {0})
do_with_read_handle handle ino = do
  attr ← on_inodes (get_inode_from_storage ino)
  open_contents ino
  on_inodes (insert_read_handle handle (record { ino = ino; attr = times_of attr }))

unfoldable pub insert_write_handle : ℕ → WriteHandleContext → Exec FsError Inodes (Unit {0})
insert_write_handle handle ctx s = (
  ok tt,
  record s {
    write_handles = insert handle ctx s.write_handles;
    opened_files_for_write = insert ctx.ino handle s.opened_files_for_write;
  },
)

unfoldable pub do_with_write_handle : ℕ → ℕ → Exec FsError Fs (Unit {0})
do_with_write_handle handle ino = do
  attr ← on_inodes (get_attr ino)
  open_contents ino
  on_inodes (insert_write_handle handle (record { ino = ino; attr = times_and_size_of attr }))

abbrev pub drop_read_handle : ℕ → Fs → Fs
drop_read_handle handle s = record s {
  inodes = record s.inodes { read_handles = remove handle s.inodes.read_handles };
}

-- The write part of `open`: a failure takes back the read handle of the same call, but not from
-- `opened_files_for_read`.
unfoldable pub open_write : ℕ → ℕ → Bool → Exec FsError Fs (Unit {0})
open_write handle ino read s =
    let (r, s') = do_with_write_handle handle ino s in
    elim r [ ok u ↦ (ok tt, s') | err x ↦ (err x, if read then drop_read_handle handle s' else s') ]

-- The first handle is drawn for reading, or else for writing after the test for another writer.
unfoldable pub open_handle : ℕ → Bool → Bool → Exec FsError Fs ℕ
open_handle ino read write s =
    let start : Exec FsError Fs ℕ = (do
      handle ← next_handle
      do_with_read_handle handle ino
      pure handle) in
    let busy : Fs → Bool = λ t. contains ino t.inodes.opened_files_for_write in
    let for_write : ℕ → Exec FsError Fs ℕ =
      (λ handle. do open_write handle ino read; pure handle) in
    let opened : Exec FsError Fs ℕ =
      if read
      then (if write
          then (start >>= λ handle t.
              if busy t then (err already_open_for_write, t) else for_write handle t)
          else start)
      else (λ t.
          if busy t then (err already_open_for_write, t) else (next_handle >>= for_write) t) in
    if not read && not write
    then (err invalid_input, s)
    else if is_dir ino s
    then (err invalid_inode_type, s)
    else opened s
