-- ===== src/EncryptedFs/Inodes/Synced.antt =====
-- What `get_attr` and `set_attr2` do to an inode that is on disk, when the cache says the same of it.
use encryptedfs.Prelude.{ℕ, ◌≡◌, ◌∙◌, inl, inr, Bool, none, some, arith, Option-cases, ok}
use encryptedfs.Prelude.Assoc.{lookup, insert}
use encryptedfs.EncryptedFs.Attr.{merge_attr, FileAttr, SetFileAttr}
use encryptedfs.EncryptedFs.Inodes.{
  get_inode_from_storage, put_cache, get_inode_from_cache_or_storage, merge_open_reads,
  merge_open_write, get_attr, write_inode_to_storage, set_attr2, Inodes,
}
use encryptedfs.EncryptedFs.Inodes.Named.{merged, ino-merge_attr, ino-merged}

-- What is cached of an inode, if anything, is `a`.
abbrev pub Agrees : ℕ → FileAttr → Inodes → Type 0
Agrees ino a s = (b : FileAttr) → lookup ino s.attr_cache ≡ some b → b ≡ a

-- What reading an inode leaves of the state: only the cache may differ.
abbrev pub after_read : ℕ → FileAttr → Inodes → Inodes
after_read ino a s = elim (lookup ino s.attr_cache) [
  | some _ ↦ s
  | none ↦ record s { attr_cache = insert ino a s.attr_cache }
]

-- Reading an inode gives what is on disk, whether from the cache or not.
pub read_inode :
    (ino : ℕ) (a : FileAttr) (s : Inodes)
    → Agrees ino a s
    → lookup ino s.storage ≡ some a
    → get_inode_from_cache_or_storage ino s ≡ (ok a, after_read ino a s)
unfolding get_inode_from_cache_or_storage get_inode_from_storage put_cache
read_inode ino a s c e = elim (Option-cases (lookup ino s.attr_cache)) [
  | inr (b, hit) ↦ ground (arith, hit, e, c b hit)
  | inl miss ↦ ground (arith, miss, e)
]

pub same_handles :
    (ino : ℕ) (a b : FileAttr) (s : Inodes) → merged ino (after_read ino a s) b ≡ merged ino s b
unfolding merge_open_write merge_open_reads
same_handles ino a b s = elim (Option-cases (lookup ino s.attr_cache)) [
  | inr (b, hit) ↦ ground (arith, hit)
  | inl miss ↦ ground (arith, miss)
]

pub get_attr_run :
    (ino : ℕ) (a : FileAttr) (s : Inodes)
    → Agrees ino a s
    → lookup ino s.storage ≡ some a
    → get_attr ino s ≡ (ok (merged ino s a), after_read ino a s)
unfolding get_attr
get_attr_run ino a s c e = ground (arith, read_inode ino a s c e, same_handles ino a a s)

pub storage-after_read :
    (ino : ℕ) (a : FileAttr) (s : Inodes) → (after_read ino a s).storage ≡ s.storage
storage-after_read ino a s = elim (Option-cases (lookup ino s.attr_cache)) [
  | inr (b, hit) ↦ ground (arith, hit)
  | inl miss ↦ ground (arith, miss)
]

-- What `set_attr2` writes.
abbrev pub updated : ℕ → SetFileAttr → Bool → FileAttr → FileAttr
updated now set overwrite_size a = record (merge_attr set overwrite_size a) {
  ctime = now;
  atime = now;
}

pub set_attr2_run :
    (now ino : ℕ) (set : SetFileAttr) (overwrite_size : Bool) (a : FileAttr) (s : Inodes)
    → Agrees ino a s
    → a.ino ≡ ino
    → lookup ino s.storage ≡ some a
    → let b = updated now set overwrite_size (merged ino s a) in
      let s1 = after_read ino a s in
      set_attr2 now ino set overwrite_size s ≡ (
        ok tt,
        record s1 { storage = insert ino b s.storage; attr_cache = insert ino b s1.attr_cache },
      )
unfolding set_attr2 write_inode_to_storage put_cache
set_attr2_run now ino set overwrite_size a s c named e =
    let same : (merge_attr set overwrite_size (merged ino s a)).ino ≡ ino =
      ino-merge_attr set overwrite_size (merged ino s a) ∙ ino-merged ino s a ∙ named in
    rw (get_attr_run ino a s c e) (ground (arith, same, storage-after_read ino a s))
