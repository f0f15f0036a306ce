-- ===== src/EncryptedFs/Nodes/Made.antt =====
-- The node that `create` makes, before an entry stands for it.
use encryptedfs.Prelude.{
  ℕ, ◌≡◌, refl, sym, ap, ◌∙◌, subst, inl, inr, false, none, some, List, [], arith, ◌==◌, Bool-cases,
  ok, ◌+◌,
}
use encryptedfs.Prelude.Assoc.{lookup, insert, lookup-insert}
use encryptedfs.Prelude.Dict
use encryptedfs.Prelude.Dict.{same}
use encryptedfs.EncryptedFs.Attr.{FileType, FileAttr, directory, regular_file}
use encryptedfs.EncryptedFs.Inodes.{put_cache, write_inode_to_storage}
use encryptedfs.EncryptedFs.Names.{Names, IsNames}
use encryptedfs.EncryptedFs.Tree.{HashEntry, Dir, Fs, dir}
use encryptedfs.EncryptedFs.Entries.Valid.{IsDir}
use encryptedfs.EncryptedFs.Entries.Run.{dir-exists}
use encryptedfs.EncryptedFs.Nodes.Contents.{
  new_dir, new_contents, after_contents, new_dir-IsDir, new_dir-bare, after_contents-lookup,
  own_names,
}
use encryptedfs.EncryptedFs.Valid.{Holds, Ordinary, IsFs, Unlinked, IsTree}
use encryptedfs.EncryptedFs.Valid.Node.{IsTree-ext, new_node-IsTree, new_node-Unlinked}

-- A new inode, and its contents.
abbrev pub with_inode : FileAttr → Fs → Fs
with_inode attr s = record s {
  inodes = record s.inodes {
    storage = insert attr.ino attr s.inodes.storage;
    attr_cache = insert attr.ino attr s.inodes.attr_cache;
  };
}

pub write_run :
    (attr : FileAttr) (s : Fs)
    → write_inode_to_storage attr s.inodes ≡ (ok tt, (with_inode attr s).inodes)
unfolding write_inode_to_storage put_cache
write_run attr s = refl

module _ (names : Names) (laws : IsNames names) (now p : ℕ) (name n : List ℕ) (d : Dir)
    (attr : FileAttr) (s : Fs) (v : IsFs s) (at : lookup p s.contents ≡ some (dir d))
    (fresh : lookup attr.ino s.inodes.storage ≡ none) where
  abbrev pub new_entry : HashEntry
  new_entry = record { ino = attr.ino; kind = attr.kind; name = n }

  abbrev pub node_made : Fs
  node_made = after_contents attr.kind attr.ino p (with_inode attr s)

  new_contents-Holds : (κ : FileType) → Holds κ (some (new_contents κ attr.ino p))
  new_contents-Holds regular_file = ([], refl)
  new_contents-Holds directory = (new_dir attr.ino p, refl)

  new_is : (κ : FileType) (e : Dir) → new_contents κ attr.ino p ≡ dir e → new_dir attr.ino p ≡ e
  new_is regular_file e z = absurd (ground (arith, z))
  new_is directory e z = ground (arith, z)

  pub inodes-made :
      (κ : FileType)
      → (after_contents κ attr.ino p (with_inode attr s)).inodes ≡ (with_inode attr s).inodes
  inodes-made regular_file = refl
  inodes-made directory = refl

  pub lookup-made :
      (j : ℕ)
      → lookup j (insert attr.ino (new_contents attr.kind attr.ino p) s.contents)
        ≡ lookup j node_made.contents
  lookup-made j = after_contents-lookup attr.kind attr.ino p j (with_inode attr s)

  dirs_made : (e : Dir) → new_contents attr.kind attr.ino p ≡ dir e → IsDir e
  dirs_made e z = subst IsDir (new_is attr.kind e z) (new_dir-IsDir attr.ino p)

  bare_made :
      (e : Dir) (k : List ℕ) (h : HashEntry)
      → new_contents attr.kind attr.ino p ≡ dir e
      → Dict.lookup k e.hash ≡ some h
      → ¬ Ordinary k
  bare_made e k h z found =
      new_dir-bare attr.ino p k h (ap (λ x. Dict.lookup k x.hash) (new_is attr.kind e z) ∙ found)

  pub node_made-IsFs : IsFs node_made
  node_made-IsFs =
      IsTree-ext (insert attr.ino (new_contents attr.kind attr.ino p) s.contents) node_made.contents
        lookup-made
        (subst
          (λ i.
            IsTree i.storage i.attr_cache
              (insert attr.ino (new_contents attr.kind attr.ino p) s.contents))
          (sym (inodes-made attr.kind))
          (new_node-IsTree v attr (new_contents attr.kind attr.ino p) fresh
            (new_contents-Holds attr.kind) dirs_made bare_made))

  pub node_made-Unlinked : Unlinked attr.ino node_made.contents
  node_made-Unlinked q k h (e, here, found, o) =
      new_node-Unlinked v attr (new_contents attr.kind attr.ino p) fresh
        (new_contents-Holds attr.kind) dirs_made bare_made q k h (e, lookup-made q ∙ here, found, o)

  -- The parent is another inode.
  pub apart : (attr.ino == p) ≡ false
  apart =
      let (pa, stored, here) = dir-exists p s v at in
      elim (Bool-cases (attr.ino == p)) [
        | inl z ↦ absurd (ground (arith, z, fresh, stored))
        | inr z ↦ z
      ]

  pub parent_made : lookup p node_made.contents ≡ some (dir d)
  parent_made =
      sym (lookup-made p)
      ∙ ground (
        arith,
        apart,
        at,
        lookup-insert attr.ino p (new_contents attr.kind attr.ino p) s.contents,
      )

  pub encryptions-made : node_made.encryptions ≡ s.encryptions + own_names attr.kind
  encryptions-made = counted attr.kind
    where
      counted :
          (κ : FileType)
          → (after_contents κ attr.ino p (with_inode attr s)).encryptions
            ≡ s.encryptions + own_names κ
      counted regular_file = omega arith
      counted directory = omega arith
