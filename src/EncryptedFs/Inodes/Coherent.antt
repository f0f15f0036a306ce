-- ===== src/EncryptedFs/Inodes/Coherent.antt =====
-- The cache never tells anything but what is on disk, and what `set_attr2` and `get_attr` do then.
use encryptedfs.Prelude.{
  ℕ, ◌≡◌, subst, inl, inr, none, some, arith, Option-cases, ok, refl, sym, ◌∙◌, Bool, ◌==◌,
  if◌then◌else◌, err,
}
use encryptedfs.Prelude.Assoc.{lookup, insert, lookup-insert, lookup-remove}
use encryptedfs.EncryptedFs.Attr.{FileAttr, SetFileAttr}
use encryptedfs.EncryptedFs.Inodes.{
  evict, get_inode_from_storage, get_inode_from_cache_or_storage, get_attr, Inodes, set_attr2,
}
use encryptedfs.EncryptedFs.{inode_not_found}
use encryptedfs.EncryptedFs.Inodes.Synced.{
  Agrees, after_read, get_attr_run, storage-after_read, updated, set_attr2_run,
}
use encryptedfs.EncryptedFs.Inodes.Named.{merged, ino-merge_attr, ino-merged}

-- What is cached is on disk, and an inode stands under its own number.
pub record IsCoherent (s : Inodes) : Type 0 where
  pub cached :
      (ino : ℕ) (a : FileAttr) → lookup ino s.attr_cache ≡ some a → lookup ino s.storage ≡ some a
  pub named : (ino : ℕ) (a : FileAttr) → lookup ino s.storage ≡ some a → a.ino ≡ ino

agrees :
    (ino : ℕ) {a : FileAttr} {s : Inodes}
    → IsCoherent s
    → lookup ino s.storage ≡ some a
    → Agrees ino a s
agrees ino c e b hit = ground (arith, e, c.cached ino b hit)

-- Dropping a cache entry loses nothing.
pub evict-IsCoherent : (ino : ℕ) {s : Inodes} → IsCoherent s → IsCoherent (evict ino s)
evict-IsCoherent ino {s} c = record {
  cached = λ j a e. c.cached j a (ground (arith, e, lookup-remove ino j s.attr_cache));
  named = c.named;
}

after_read-IsCoherent :
    (ino : ℕ) (a : FileAttr) (s : Inodes)
    → IsCoherent s
    → lookup ino s.storage ≡ some a
    → IsCoherent (after_read ino a s)
after_read-IsCoherent ino a s c e = elim (Option-cases (lookup ino s.attr_cache)) [
  | inr (b, hit) ↦ subst IsCoherent {x = s} (ground (arith, hit)) c
  | inl miss ↦
      subst IsCoherent {x = record s { attr_cache = insert ino a s.attr_cache }}
        (ground (arith, miss))
        (record {
          cached =
              λ j b e'. ground (arith, e, e', c.cached j b, lookup-insert ino j a s.attr_cache);
          named = c.named;
        })
]

-- With a cache that agrees with the disk, `get_attr` of an inode that is there succeeds with what is
-- on disk, merged with the attributes of the open handles, whether the inode was cached or not; it
-- leaves the disk alone, and the cache in agreement.
pub get_attr_lem :
    (ino : ℕ) (a : FileAttr) (s : Inodes)
    → IsCoherent s
    → lookup ino s.storage ≡ some a
    → let (r, s') = get_attr ino s in
      (r ≡ ok (merged ino s a)) × (s'.storage ≡ s.storage) × IsCoherent s'
get_attr_lem ino a s c e =
    let run = get_attr_run ino a s (agrees ino c e) e in
    subst (λ o. (o.0 ≡ ok (merged ino s a)) × (o.1.storage ≡ s.storage) × IsCoherent o.1) (sym run)
      (refl, storage-after_read ino a s, after_read-IsCoherent ino a s c e)

-- With a cache that agrees with the disk, `get_attr` of an inode that is not there fails, and changes
-- nothing.
pub get_attr-missing :
    (ino : ℕ) (s : Inodes)
    → IsCoherent s
    → lookup ino s.storage ≡ none
    → get_attr ino s ≡ (err inode_not_found, s)
unfolding get_attr get_inode_from_cache_or_storage get_inode_from_storage
get_attr-missing ino s c e = elim (Option-cases (lookup ino s.attr_cache)) [
  | inr (b, hit) ↦ absurd (ground (arith, e, c.cached ino b hit))
  | inl miss ↦ ground (arith, e, miss)
]

written-IsCoherent :
    (s : Inodes) (ino : ℕ) (b : FileAttr)
    → IsCoherent s
    → b.ino ≡ ino
    → IsCoherent
        (record s { storage = insert ino b s.storage; attr_cache = insert ino b s.attr_cache })
written-IsCoherent s ino b c e = record {
  cached = λ j a h.
      ground (
        arith,
        h,
        c.cached j a,
        lookup-insert ino j b s.storage,
        lookup-insert ino j b s.attr_cache,
      );
  named = λ j a h. ground (arith, h, e, c.named j a, lookup-insert ino j b s.storage);
}

-- With a cache that agrees with the disk, `set_attr2` of an inode that is there succeeds: on disk the
-- inode is what `get_attr` gives with the set fields merged in and both times of access and change
-- set to now, every other inode is as before, and the cache agrees again.
pub set_attr2_lem :
    (now ino : ℕ) (set : SetFileAttr) (overwrite_size : Bool) (a : FileAttr) (s : Inodes)
    → IsCoherent s
    → lookup ino s.storage ≡ some a
    → let (r, s') = set_attr2 now ino set overwrite_size s in
      (r ≡ ok tt)
      × ((j : ℕ)
          → lookup j s'.storage ≡ (
              if ino == j
              then some (updated now set overwrite_size (merged ino s a))
              else lookup j s.storage))
      × IsCoherent s'
set_attr2_lem now ino set overwrite_size a s c e =
    let b : FileAttr = updated now set overwrite_size (merged ino s a) in
    let s1 : Inodes = after_read ino a s in
    let same : b.ino ≡ ino =
      ino-merge_attr set overwrite_size (merged ino s a) ∙ ino-merged ino s a ∙ c.named ino a e in
    let c' = written-IsCoherent s1 ino b (after_read-IsCoherent ino a s c e) same in
    subst
      (λ o.
        (o.0 ≡ ok tt)
        × ((j : ℕ) → lookup j o.1.storage ≡ (if ino == j then some b else lookup j s.storage))
        × IsCoherent o.1)
      (sym (set_attr2_run now ino set overwrite_size a s (agrees ino c e) (c.named ino a e) e))
      (
        refl,
        λ j. lookup-insert ino j b s.storage,
        subst
            (λ st.
              IsCoherent
                (record s1 { storage = insert ino b st; attr_cache = insert ino b s1.attr_cache }))
            (storage-after_read ino a s) c',
      )
