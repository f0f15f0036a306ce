-- ===== src/EncryptedFs/Valid.antt =====
-- The invariant of the file system: inodes, contents, cache and directory entries belong together.
pub mod Entry
pub mod Node
pub mod Touch
pub mod Namespace
use encryptedfs.Prelude.{ℕ, ◌≡◌, ◌≢◌, false, Option, some, List}
use encryptedfs.Prelude.Assoc.{Assoc, lookup}
use encryptedfs.Prelude.Dict
use encryptedfs.Prelude.Dict.{same}
use encryptedfs.EncryptedFs.Attr.{FileType, FileAttr, directory, regular_file}
use encryptedfs.EncryptedFs.Names.{this_dir, parent_dir}
use encryptedfs.EncryptedFs.Tree.{HashEntry, Dir, Content, Fs, file, dir}
use encryptedfs.EncryptedFs.Entries.Valid.{IsDir}

-- The contents that a kind of node has.
abbrev pub Holds : FileType → Option Content → Type 0
Holds directory o = (d : Dir) × (o ≡ some (dir d))
Holds regular_file o = (bytes : List ℕ) × (o ≡ some (file bytes))

-- The key of an entry that is not a directory's own link to itself or its parent.
abbrev pub Ordinary : List ℕ → Type 0
Ordinary k = (same k this_dir ≡ false) × (same k parent_dir ≡ false)

-- The directory `p` has the entry `h` under the key `k`.
abbrev pub HasEntry : Assoc Content → ℕ → List ℕ → HashEntry → Type 0
HasEntry contents p k h =
    (d : Dir) × (lookup p contents ≡ some (dir d)) × (Dict.lookup k d.hash ≡ some h) × Ordinary k

-- An inode stands under its number and has contents of its kind, and no other contents are there;
-- what is cached of an inode on disk is what is on disk; the folders of a directory agree; an entry
-- stands for an inode of its kind, and no two for the same.
pub record IsTree (storage cache : Assoc FileAttr) (contents : Assoc Content) : Type 0 where
  pub named : (ino : ℕ) (a : FileAttr) → lookup ino storage ≡ some a → a.ino ≡ ino
  pub synced :
      (ino : ℕ) (a b : FileAttr) → lookup ino cache ≡ some b → lookup ino storage ≡ some a → b ≡ a
  pub kinds :
      (ino : ℕ) (a : FileAttr) → lookup ino storage ≡ some a → Holds a.kind (lookup ino contents)
  pub owned :
      (ino : ℕ) (c : Content)
      → lookup ino contents ≡ some c
      → (a : FileAttr) × (lookup ino storage ≡ some a)
  pub dirs : (p : ℕ) (d : Dir) → lookup p contents ≡ some (dir d) → IsDir d
  pub entries :
      (p : ℕ) (k : List ℕ) (h : HashEntry)
      → HasEntry contents p k h
      → (a : FileAttr) × (lookup h.ino storage ≡ some a) × (a.kind ≡ h.kind)
  pub unique :
      (p q : ℕ) (k j : List ℕ) (h g : HashEntry)
      → HasEntry contents p k h
      → HasEntry contents q j g
      → h.ino ≡ g.ino
      → (p ≡ q) × (k ≡ j)

abbrev pub IsFs : Fs → Type 0
IsFs s = IsTree s.inodes.storage s.inodes.attr_cache s.contents

-- No entry stands for the inode.
abbrev pub Unlinked : ℕ → Assoc Content → Type 0
Unlinked ino contents = (p : ℕ) (k : List ℕ) (h : HashEntry) → HasEntry contents p k h → h.ino ≢ ino
