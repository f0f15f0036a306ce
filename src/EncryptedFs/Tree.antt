-- ===== src/EncryptedFs/Tree.antt =====
-- src/encryptedfs.rs: the state of the file system, and what the host's folders hold. The folder of a
-- directory has two folders: `ls` from encrypted names, `hash` from hashes of names. A file there is
-- what was serialized into it. The contents of a regular file are its bytes on disk.
use encryptedfs.Prelude.{ℕ, Bool, true, false, Option, none, some, List, Exec, err}
use encryptedfs.Prelude.Assoc.{Assoc, lookup, contains, insert}
use encryptedfs.Prelude.Dict.{Dict}
use encryptedfs.EncryptedFs.{FsError, io}
use encryptedfs.EncryptedFs.Attr.{FileType}
use encryptedfs.EncryptedFs.Inodes.{Inodes}

abbrev pub root_inode : ℕ
root_inode = 1

pub record LsEntry : Type 0 where
  pub ino : ℕ
  pub kind : FileType

pub record HashEntry : Type 0 where
  pub ino : ℕ
  pub kind : FileType
  pub name : List ℕ

pub record Dir : Type 0 where
  pub ls : Dict LsEntry
  pub hash : Dict HashEntry

pub data Content : Type 0 where
  file : List ℕ → Content
  dir : Dir → Content

-- `DirectoryEntry`.
pub record DirectoryEntry : Type 0 where
  pub ino : ℕ
  pub name : List ℕ
  pub kind : FileType

-- `encryptions` counts the names that were encrypted.
pub record Fs : Type 0 where
  pub inodes : Inodes
  pub contents : Assoc Content
  pub current_handle : ℕ
  pub encryptions : ℕ
  pub dir_entries_name_cache : Dict (List ℕ)
  pub dir_entries_meta_cache : Dict LsEntry

abbrev pub on_inodes : {A : Type 0} → Exec FsError Inodes A → Exec FsError Fs A
on_inodes m s = let (r, i) = m s.inodes in (r, record s { inodes = i })

abbrev pub dir_of : ℕ → Fs → Option Dir
dir_of ino s = elim (lookup ino s.contents) [
  | none ↦ none
  | some (file bytes) ↦ none
  | some (dir d) ↦ some d
]

-- `exists`, `is_dir` and `is_file` ask the host for the inode file and the contents.
abbrev pub exists : ℕ → Fs → Bool
exists ino s = contains ino s.inodes.storage

abbrev pub is_dir : ℕ → Fs → Bool
is_dir ino s = elim (dir_of ino s) [ none ↦ false | some d ↦ true ]

abbrev pub is_file : ℕ → Fs → Bool
is_file ino s = elim (lookup ino s.contents) [
  | none ↦ false
  | some (file bytes) ↦ true
  | some (dir d) ↦ false
]

-- A write of the host into the folder of a directory; without the folder it fails.
abbrev pub set_dir : ℕ → Dir → Fs → Fs
set_dir ino d s = record s { contents = insert ino (dir d) s.contents }

abbrev pub on_dir : {A : Type 0} → ℕ → Exec FsError Dir A → Exec FsError Fs A
on_dir ino m s = elim (dir_of ino s) [
  | none ↦ (err io, s)
  | some d ↦ (let (r, d') = m d in (r, set_dir ino d' s))
]
