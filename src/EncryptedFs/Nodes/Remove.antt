-- ===== src/EncryptedFs/Nodes/Remove.antt =====
-- `remove_file` and `remove_dir` past their guards.
use encryptedfs.Prelude.{ℕ, ◌≡◌, refl, ◌∙◌, false, none, some, List, arith, ◌==◌, Exec, ok}
use encryptedfs.Prelude.Assoc.{lookup, insert, remove, lookup-insert, lookup-remove}
use encryptedfs.Prelude.Dict
use encryptedfs.Prelude.Dict.{same_refl}
use encryptedfs.EncryptedFs.{FsError}
use encryptedfs.EncryptedFs.Attr.{FileAttr}
use encryptedfs.EncryptedFs.Inodes.Named.{merged}
use encryptedfs.EncryptedFs.Inodes.Synced.{updated}
use encryptedfs.EncryptedFs.Names.{Names}
use encryptedfs.EncryptedFs.Tree.{HashEntry, Dir, Fs, dir}
use encryptedfs.EncryptedFs.Entries.{exists_by_name}
use encryptedfs.EncryptedFs.Entries.Valid.{drop_entry}
use encryptedfs.EncryptedFs.Entries.Run.{after_drop, remove_run, there_run, dir-exists}
use encryptedfs.EncryptedFs.Nodes.{set_now, remove_inode_file, remove_node}
use encryptedfs.EncryptedFs.Valid.{Ordinary, IsFs}
use encryptedfs.EncryptedFs.Valid.Entry.{dropped-IsTree, dropped-Unlinked}
use encryptedfs.EncryptedFs.Valid.Node.{IsTree-ext, removed-IsTree}
use encryptedfs.EncryptedFs.Valid.Touch.{after_set, set_attr_run, after_set-IsFs}

-- The state without an inode and its contents.
abbrev pub without_node : ℕ → Fs → Fs
without_node ino s = record s {
  inodes = record s.inodes { storage = remove ino s.inodes.storage };
  contents = remove ino s.contents;
}

-- `s'` is `s` without the entry `h` that stood in the directory `p` for `name`, and without its node:
-- nothing else is gone, and only the parent has changed.
pub record IsRemoved (names : Names) (p : ℕ) (d : Dir) (name : List ℕ) (h : HashEntry) (s s' : Fs)
    : Type 0 where
  pub valid : IsFs s'
  pub unnamed : exists_by_name names p name s' ≡ (ok false, s')
  pub no_inode : lookup h.ino s'.inodes.storage ≡ none
  pub no_contents : lookup h.ino s'.contents ≡ none
  pub parent : lookup p s'.contents ≡ some (dir (drop_entry d (names.hash name) h))
  pub rest :
      (j : ℕ)
      → (h.ino == j) ≡ false
      → (p == j) ≡ false
      → (lookup j s'.inodes.storage ≡ lookup j s.inodes.storage)
        × (lookup j s'.contents ≡ lookup j s.contents)

remove_inode_run :
    (ino : ℕ) (a : FileAttr) (s : Fs)
    → lookup ino s.inodes.storage ≡ some a
    → remove_inode_file ino s
      ≡ (ok tt, record s { inodes = record s.inodes { storage = remove ino s.inodes.storage } })
unfolding remove_inode_file
remove_inode_run ino a s e = ground (arith, e)

module _ (names : Names) (now p : ℕ) (name : List ℕ) (d : Dir) (h : HashEntry) (s : Fs) (v : IsFs s)
    (at : lookup p s.contents ≡ some (dir d))
    (found : Dict.lookup (names.hash name) d.hash ≡ some h) (o : Ordinary (names.hash name))
    (apart : (h.ino == p) ≡ false) where
  abbrev dropped : Fs
  dropped = after_drop p d (names.hash name) h (without_node h.ino s)

  -- The directory changes before or after the node goes.
  swapped :
      (j : ℕ)
      → lookup j (remove h.ino (after_drop p d (names.hash name) h s).contents)
        ≡ lookup j dropped.contents
  swapped j =
      let d' : Dir = drop_entry d (names.hash name) h in
      ground (
        arith,
        apart,
        lookup-remove h.ino j (insert p (dir d') s.contents),
        lookup-insert p j (dir d') s.contents,
        lookup-insert p j (dir d') (remove h.ino s.contents),
        lookup-remove h.ino j s.contents,
      )

  dropped-IsFs : IsFs dropped
  dropped-IsFs =
      IsTree-ext (remove h.ino (after_drop p d (names.hash name) h s).contents) dropped.contents
        swapped
        (removed-IsTree (dropped-IsTree v p d at (names.hash name) h found) h.ino
          (dropped-Unlinked v p d at (names.hash name) h found o))

  module _ (pa : FileAttr) (stored : lookup p s.inodes.storage ≡ some pa) where
    abbrev pub final : Fs
    final = record dropped { inodes = after_set now p (set_now now) pa dropped.inodes }

    still_stored : lookup p dropped.inodes.storage ≡ some pa
    still_stored = ground (arith, apart, stored, lookup-remove h.ino p s.inodes.storage)

    -- The parent's folders after the call.
    parent_dropped : lookup p dropped.contents ≡ some (dir (drop_entry d (names.hash name) h))
    parent_dropped = ground (
      arith,
      lookup-insert p p (dir (drop_entry d (names.hash name) h)) (remove h.ino s.contents),
    )

    pub remove_node_run :
        (a : FileAttr) (remove_contents : ℕ → Exec FsError Fs (Unit {0}))
        → lookup h.ino s.inodes.storage ≡ some a
        → ((s1 : Fs)
            → s1.contents ≡ s.contents
            → remove_contents h.ino s1 ≡ (ok tt, record s1 { contents = remove h.ino s1.contents }))
        → remove_node names now remove_contents p name h.ino s ≡ (ok tt, final)
    unfolding remove_node
    remove_node_run a remove_contents e host =
        let s1 : Fs = record s {
          inodes = record s.inodes { storage = remove h.ino s.inodes.storage };
        } in
        rw (remove_inode_run h.ino a s e) (
          rw (host s1 refl) (
            rw
              (remove_run names p d (without_node h.ino s)
                (ground (arith, apart, at, lookup-remove h.ino p s.contents)) name h (v.dirs p d at)
                found)
              (rw (set_attr_run now p (set_now now) dropped pa dropped-IsFs still_stored) refl)))

    pub remove_node_lem : IsRemoved names p d name h s final
    remove_node_lem =
        let w : IsFs final =
          after_set-IsFs now p (set_now now) dropped pa dropped-IsFs still_stored in
        let b : FileAttr = updated now (set_now now) false (merged p dropped.inodes pa) in
        record {
          valid = w;
          unnamed =
              there_run names p (drop_entry d (names.hash name) h) final parent_dropped
                (dir-exists p final w parent_dropped).2 name
              ∙ ground (
                arith,
                Dict.lookup-remove (names.hash name) (names.hash name) d.hash
                    (v.dirs p d at).hash_distinct,
                same_refl (names.hash name),
              );
          no_inode = ground (
            arith,
            apart,
            lookup-insert p h.ino b dropped.inodes.storage,
            lookup-remove h.ino h.ino s.inodes.storage,
          );
          no_contents = ground (
            arith,
            apart,
            lookup-insert p h.ino (dir (drop_entry d (names.hash name) h))
                (remove h.ino s.contents),
            lookup-remove h.ino h.ino s.contents,
          );
          parent = parent_dropped;
          rest = λ j another another_p. (
            ground (
              arith,
              another,
              another_p,
              lookup-insert p j b dropped.inodes.storage,
              lookup-remove h.ino j s.inodes.storage,
            ),
            ground (
              arith,
              another,
              another_p,
              lookup-insert p j (dir (drop_entry d (names.hash name) h)) (remove h.ino s.contents),
              lookup-remove h.ino j s.contents,
            ),
          );
        }
