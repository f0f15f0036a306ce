-- ===== src/EncryptedFs/Inodes.antt =====
-- src/encryptedfs.rs: the inodes on disk, the cache of their attributes, and the attributes that the
-- open handles keep. A file under `inodes` is what it was written from; the cache is a map, from
-- which an entry may go at any time.
pub mod Named
pub mod Synced
pub mod Coherent
pub mod Order
use encryptedfs.Prelude.{
  ℕ, Bool, false, none, some, List, [], ◌∷◌, Exec, pure, gets, ◌>>=◌, ◌>>◌, modify, ok, err,
}
use encryptedfs.Prelude.Assoc.{Assoc, lookup, insert, remove}
use encryptedfs.EncryptedFs.{FsError, inode_not_found}
use encryptedfs.EncryptedFs.Attr.{
  set_times_and_size, set_times, merge_attr, FileAttr, SetFileAttr, TimesAndSizeFileAttr,
  TimesFileAttr,
}

-- `ReadHandleContext` and `WriteHandleContext`, without the stream that each has.
pub record ReadHandleContext : Type 0 where
  pub ino : ℕ
  pub attr : TimesFileAttr

pub record WriteHandleContext : Type 0 where
  pub ino : ℕ
  pub attr : TimesAndSizeFileAttr

pub record Inodes : Type 0 where
  pub storage : Assoc FileAttr
  pub attr_cache : Assoc FileAttr
  pub opened_files_for_read : Assoc (List ℕ)
  pub read_handles : Assoc ReadHandleContext
  pub opened_files_for_write : Assoc ℕ
  pub write_handles : Assoc WriteHandleContext

-- The cache drops an entry.
abbrev pub evict : ℕ → Inodes → Inodes
evict ino s = record s { attr_cache = remove ino s.attr_cache }

unfoldable pub get_inode_from_storage : ℕ → Exec FsError Inodes FileAttr
get_inode_from_storage ino s = elim (lookup ino s.storage) [
  | none ↦ (err inode_not_found, s)
  | some attr ↦ (ok attr, s)
]

unfoldable pub put_cache : ℕ → FileAttr → Exec FsError Inodes (Unit {0})
put_cache ino attr s = (ok tt, record s { attr_cache = insert ino attr s.attr_cache })

unfoldable pub get_inode_from_cache_or_storage : ℕ → Exec FsError Inodes FileAttr
get_inode_from_cache_or_storage ino s =
    let from_storage = (do attr ← get_inode_from_storage ino; put_cache ino attr; pure attr) in
    elim (lookup ino s.attr_cache) [ some attr ↦ (ok attr, s) | none ↦ from_storage s ]

-- The loop over the read handles of a file.
unfoldable pub merge_reads : Assoc ReadHandleContext → List ℕ → FileAttr → FileAttr
merge_reads handles [] attr = attr
merge_reads handles (fh ∷ fhs) attr = merge_reads handles fhs (elim (lookup fh handles) [
  | none ↦ attr
  | some ctx ↦ merge_attr (set_times ctx.attr) false attr
])

unfoldable pub merge_open_reads : ℕ → Inodes → FileAttr → FileAttr
merge_open_reads ino s attr = elim (lookup ino s.opened_files_for_read) [
  | none ↦ attr
  | some fhs ↦ merge_reads s.read_handles fhs attr
]

unfoldable pub merge_open_write : ℕ → Inodes → FileAttr → FileAttr
merge_open_write ino s attr = elim (lookup ino s.opened_files_for_write) [
  | none ↦ attr
  | some fh ↦ elim (lookup fh s.write_handles) [
    | none ↦ attr
    | some ctx ↦ merge_attr (set_times_and_size ctx.attr) false attr
  ]
]

unfoldable pub get_attr : ℕ → Exec FsError Inodes FileAttr
get_attr ino = do
  attr ← get_inode_from_cache_or_storage ino
  s ← gets (λ s. s)
  pure (merge_open_write ino s (merge_open_reads ino s attr))

unfoldable pub write_inode_to_storage : FileAttr → Exec FsError Inodes (Unit {0})
write_inode_to_storage attr = do
  modify (λ s. record s { storage = insert attr.ino attr s.storage })
  put_cache attr.ino attr

-- `set_attr2` at the time `now`.
unfoldable pub set_attr2 : ℕ → ℕ → SetFileAttr → Bool → Exec FsError Inodes (Unit {0})
set_attr2 now ino set overwrite_size = do
  attr ← get_attr ino
  write_inode_to_storage (record (merge_attr set overwrite_size attr) { ctime = now; atime = now })

unfoldable pub set_attr : ℕ → ℕ → SetFileAttr → Exec FsError Inodes (Unit {0})
set_attr now ino set = set_attr2 now ino set false
