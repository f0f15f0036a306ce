-- ===== src/EncryptedFs/Entries/Run.antt =====
-- What the operations on entries do to a directory that is there.
use encryptedfs.Prelude.{ℕ, ◌+◌, ◌≡◌, true, none, some, List, arith, ok}
use encryptedfs.Prelude.Assoc.{lookup, insert}
use encryptedfs.Prelude.Dict
use encryptedfs.EncryptedFs.Attr.{FileAttr}
use encryptedfs.EncryptedFs.Inodes.Synced.{Agrees, after_read, read_inode}
use encryptedfs.EncryptedFs.Names.{Names}
use encryptedfs.EncryptedFs.Tree.{exists, HashEntry, Dir, DirectoryEntry, Fs, dir}
use encryptedfs.EncryptedFs.Entries.{
  exists_by_name, find_by_name, encrypt_name, insert_directory_entry, remove_entry,
  remove_directory_entry,
}
use encryptedfs.EncryptedFs.Entries.Valid.{put_entry, drop_entry, IsDir}
use encryptedfs.EncryptedFs.Valid.{IsFs}

-- The entry of `hash` for a new node.
abbrev pub entry_of : DirectoryEntry → List ℕ → HashEntry
entry_of entry n = record { ino = entry.ino; kind = entry.kind; name = n }

abbrev pub after_insert : ℕ → Dir → List ℕ → HashEntry → Fs → Fs
after_insert p d k h s = record s {
  encryptions = s.encryptions + 1;
  contents = insert p (dir (put_entry d k h)) s.contents;
}

abbrev pub after_drop : ℕ → Dir → List ℕ → HashEntry → Fs → Fs
after_drop p d k h s = record s { contents = insert p (dir (drop_entry d k h)) s.contents }

-- The state after an inode is read.
abbrev pub after_look : ℕ → FileAttr → Fs → Fs
after_look ino a s = record s { inodes = after_read ino a s.inodes }

module _ (names : Names) (p : ℕ) (d : Dir) (s : Fs) (at : lookup p s.contents ≡ some (dir d)) where
  pub insert_run :
      (entry : DirectoryEntry) (n : List ℕ)
      → names.encrypt s.encryptions entry.name ≡ ok n
      → insert_directory_entry names p entry s
        ≡ (ok tt, after_insert p d (names.hash entry.name) (entry_of entry n) s)
  unfolding insert_directory_entry encrypt_name
  insert_run entry n e = rw e (ground (arith, at))

  pub remove_run :
      (name : List ℕ) (h : HashEntry)
      → IsDir d
      → Dict.lookup (names.hash name) d.hash ≡ some h
      → remove_directory_entry names p name s ≡ (ok tt, after_drop p d (names.hash name) h s)
  unfolding remove_directory_entry remove_entry
  remove_run name h v found = ground (arith, at, found, v.listed (names.hash name) h found)

  module _ (here : exists p s ≡ true) (name : List ℕ) where
    pub there_run : exists_by_name names p name s ≡ (ok (Dict.contains (names.hash name) d.hash), s)
    unfolding exists_by_name
    there_run = ground (arith, at, here)

    pub miss_run :
        Dict.lookup (names.hash name) d.hash ≡ none → find_by_name names p name s ≡ (ok none, s)
    unfolding find_by_name
    miss_run e = ground (arith, at, here, e)

    pub find_run :
        (h : HashEntry) (a : FileAttr)
        → Dict.lookup (names.hash name) d.hash ≡ some h
        → Agrees h.ino a s.inodes
        → lookup h.ino s.inodes.storage ≡ some a
        → find_by_name names p name s ≡ (ok (some a), after_look h.ino a s)
    unfolding find_by_name
    find_run h a found agrees stored =
        ground (arith, at, here, found, read_inode h.ino a s.inodes agrees stored)

-- The directory of a valid state has an inode.
pub dir-exists :
    (p : ℕ) {d : Dir} (s : Fs)
    → IsFs s
    → lookup p s.contents ≡ some (dir d)
    → (a : FileAttr) × (lookup p s.inodes.storage ≡ some a) × (exists p s ≡ true)
dir-exists p {d} s v at = let (a, e) = v.owned p (dir d) at in (a, e, ground (arith, e))
