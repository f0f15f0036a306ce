-- ===== src/EncryptedFs/Valid/Touch.antt =====
-- Setting the attributes of an inode, and reading one.
use encryptedfs.Prelude.{
  ℕ, ◌≡◌, sym, ap, ◌∙◌, subst, inl, inr, false, some, arith, ◌==◌, Bool-cases, Option-cases, ok,
}
use encryptedfs.Prelude.Assoc.{Assoc, lookup, insert, lookup-insert}
use encryptedfs.EncryptedFs.Attr.{FileAttr, SetFileAttr}
use encryptedfs.EncryptedFs.Inodes.{set_attr, Inodes}
use encryptedfs.EncryptedFs.Inodes.Named.{
  merged, ino-merge_attr, kind-merge_attr, ino-merged, kind-merged,
}
use encryptedfs.EncryptedFs.Inodes.Synced.{after_read, storage-after_read, updated, set_attr2_run}
use encryptedfs.EncryptedFs.Tree.{Content, Fs}
use encryptedfs.EncryptedFs.Valid.{Holds, IsFs, IsTree}

-- The inodes after `set_attr` of the inode that is `a` on disk.
abbrev pub after_set : ℕ → ℕ → SetFileAttr → FileAttr → Inodes → Inodes
after_set now ino set a s =
    let b : FileAttr = updated now set false (merged ino s a) in
    let s1 : Inodes = after_read ino a s in
    record s1 { storage = insert ino b s.storage; attr_cache = insert ino b s1.attr_cache }

module _ {storage cache : Assoc FileAttr} {contents : Assoc Content}
    (v : IsTree storage cache contents) (ino : ℕ) (a : FileAttr)
    (stored : lookup ino storage ≡ some a) where
  -- What is on disk goes into the cache.
  pub read-IsTree : IsTree storage (insert ino a cache) contents
  read-IsTree = record {
    named = v.named;
    synced =
        λ j b c e e'. ground (arith, e, e', stored, v.synced j b c, lookup-insert ino j a cache);
    kinds = v.kinds;
    owned = v.owned;
    dirs = v.dirs;
    entries = v.entries;
    unique = v.unique;
  }

  -- Another inode of the same number and kind.
  pub set-IsTree :
      (b : FileAttr)
      → b.ino ≡ ino
      → b.kind ≡ a.kind
      → IsTree (insert ino b storage) (insert ino b cache) contents
  set-IsTree b named kind = record {
    named = λ j c e. ground (arith, e, named, v.named j c, lookup-insert ino j b storage);
    synced = λ j c c' e e'.
        ground (
          arith,
          e,
          e',
          v.synced j c c',
          lookup-insert ino j b storage,
          lookup-insert ino j b cache,
        );
    kinds = λ j c e. elim (Bool-cases (ino == j)) [
      | inl z ↦
          (let one : b ≡ c = ground (arith, z, e, lookup-insert ino j b storage) in
            subst (λ x. Holds x (lookup j contents)) (sym kind ∙ ap (λ x. x.kind) one)
              (v.kinds j a (ground (arith, z, stored))))
      | inr z ↦ v.kinds j c (ground (arith, z, e, lookup-insert ino j b storage))
    ];
    owned = λ j c e. elim (Bool-cases (ino == j)) [
      | inl z ↦ (b, ground (arith, z, lookup-insert ino j b storage))
      | inr z ↦
          (let (c', there) = v.owned j c e in
            (c', ground (arith, z, there, lookup-insert ino j b storage)))
    ];
    dirs = v.dirs;
    entries = λ p k h e. elim (Bool-cases (ino == h.ino)) [
      | inl z ↦
          (let (c, there, same_kind) = v.entries p k h e in
            (
              b,
              ground (arith, z, lookup-insert ino h.ino b storage),
              ground (arith, z, there, stored, kind, same_kind),
            ))
      | inr z ↦
          (let (c, there, same_kind) = v.entries p k h e in
            (c, ground (arith, z, there, lookup-insert ino h.ino b storage), same_kind))
    ];
    unique = v.unique;
  }

pub after_read-IsFs :
    (ino : ℕ) (a : FileAttr) (s : Fs)
    → IsFs s
    → lookup ino s.inodes.storage ≡ some a
    → IsFs (record s { inodes = after_read ino a s.inodes })
after_read-IsFs ino a s v stored =
    let good : Inodes → Type 0 = λ i. IsTree i.storage i.attr_cache s.contents in
    let i' : Inodes = after_read ino a s.inodes in
    elim (Option-cases (lookup ino s.inodes.attr_cache)) [
      | inr (b, hit) ↦ subst good {x = s.inodes} {y = i'} (ground (arith, hit)) v
      | inl miss ↦
          subst good {x = record s.inodes { attr_cache = insert ino a s.inodes.attr_cache }}
            {y = i'} (ground (arith, miss)) (read-IsTree v ino a stored)
    ]

module _ (now ino : ℕ) (set : SetFileAttr) (s : Fs) (a : FileAttr) (v : IsFs s)
    (stored : lookup ino s.inodes.storage ≡ some a) where
  -- `set_attr` of an inode that is there succeeds.
  pub set_attr_run : set_attr now ino set s.inodes ≡ (ok tt, after_set now ino set a s.inodes)
  unfolding set_attr
  set_attr_run =
      set_attr2_run now ino set false a s.inodes (λ b hit. v.synced ino a b hit stored)
        (v.named ino a stored) stored

  pub after_set-IsFs : IsFs (record s { inodes = after_set now ino set a s.inodes })
  after_set-IsFs =
      let b : FileAttr = updated now set false (merged ino s.inodes a) in
      let w = after_read-IsFs ino a s v stored in
      let kept = storage-after_read ino a s.inodes in
      subst
        (λ st.
          IsTree (insert ino b st) (insert ino b (after_read ino a s.inodes).attr_cache) s.contents)
        kept
        (set-IsTree w ino a (ap (lookup ino) kept ∙ stored) b
          (ino-merge_attr set false (merged ino s.inodes a)
            ∙ ino-merged ino s.inodes a
            ∙ v.named ino a stored)
          (kind-merge_attr set false (merged ino s.inodes a) ∙ kind-merged ino s.inodes a))
