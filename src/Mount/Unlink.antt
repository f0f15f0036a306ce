-- ===== src/Mount/Unlink.antt =====
-- `unlink` removes a file for a caller who may change the directory, and for no another.
use encryptedfs.Prelude.{
  ℕ, ◌≡◌, refl, sym, ap, ◌∙◌, subst, ◌⊎◌, inl, inr, Bool, true, false, not, ◌&&◌, some, List,
  Bool-cases, Result, ok, err,
}
use encryptedfs.Prelude.Assoc.{lookup}
use encryptedfs.Prelude.Dict
use encryptedfs.Prelude.Dict.{Dict, same, same_refl, same→eq}
use encryptedfs.Mount.{w_ok, may, sticky, Errno, Request, enoent, eacces}
use encryptedfs.Mount.Handlers.{answer, call, unlink}
use encryptedfs.EncryptedFs.Attr.{FileAttr, regular_file}
use encryptedfs.EncryptedFs.Inodes.{get_attr}
use encryptedfs.EncryptedFs.Inodes.Named.{merged}
use encryptedfs.EncryptedFs.Inodes.Synced.{get_attr_run, storage-after_read}
use encryptedfs.EncryptedFs.Names.{Names}
use encryptedfs.EncryptedFs.Tree.{HashEntry, Dir, Fs, dir}
use encryptedfs.EncryptedFs.Entries.{find_by_name}
use encryptedfs.EncryptedFs.Entries.Run.{after_look}
use encryptedfs.EncryptedFs.Nodes.{remove_file}
use encryptedfs.EncryptedFs.Nodes.Remove.{IsRemoved}
use encryptedfs.EncryptedFs.Nodes.Removal.{find_entry, look-SameDisk, remove_file_lem, SameDisk}
use encryptedfs.EncryptedFs.Valid.{Ordinary, IsFs}
use encryptedfs.EncryptedFs.Valid.Touch.{after_read-IsFs}

-- Removal counts from any state with the same disk.
IsRemoved-from :
    (names : Names) (p : ℕ) (d : Dir) (name : List ℕ) (h : HashEntry) (s s1 s' : Fs)
    → SameDisk s s1
    → IsRemoved names p d name h s1 s'
    → IsRemoved names p d name h s s'
IsRemoved-from names p d name h s s1 s' same removed = record {
  valid = removed.valid;
  unnamed = removed.unnamed;
  no_inode = removed.no_inode;
  no_contents = removed.no_contents;
  parent = removed.parent;
  rest = λ j another another_p.
      let (e, e') = removed.rest j another another_p in
      (e ∙ ap (lookup j) same.storage, e' ∙ ap (lookup j) same.contents);
}

-- Whether a caller may remove a node from a directory.
abbrev pub may_remove : Request → FileAttr → FileAttr → Bool
may_remove req parent attr = may req w_ok parent && not (sticky req parent attr)

module _ (names : Names) (now : ℕ) (req : Request) (p : ℕ) (name : List ℕ) (d : Dir) (h : HashEntry)
    (s : Fs) (v : IsFs s) (at : lookup p s.contents ≡ some (dir d))
    (found : Dict.lookup (names.hash name) d.hash ≡ some h) (pa a : FileAttr)
    (stored_p : lookup p s.inodes.storage ≡ some pa)
    (stored : lookup h.ino s.inodes.storage ≡ some a) where
  abbrev pub parent_attr : FileAttr
  parent_attr = merged p s.inodes pa

  abbrev looked : Fs
  looked = after_look p pa s

  parent_run : get_attr p s.inodes ≡ (ok parent_attr, looked.inodes)
  parent_run = get_attr_run p pa s.inodes (λ b hit. v.synced p pa b hit stored_p) stored_p

  looked-SameDisk : SameDisk s looked
  looked-SameDisk = record {
    valid = after_read-IsFs p pa s v stored_p;
    storage = storage-after_read p pa s.inodes;
    contents = refl;
  }

  stored_looked : lookup h.ino looked.inodes.storage ≡ some a
  stored_looked = ap (lookup h.ino) looked-SameDisk.storage ∙ stored

  node_run : find_by_name names p name looked ≡ (ok (some a), after_look h.ino a looked)
  node_run = find_entry names now p name d h looked looked-SameDisk.valid at found a stored_looked

  both-SameDisk : SameDisk s (after_look h.ino a looked)
  both-SameDisk =
      let next =
        look-SameDisk names now p name d h looked looked-SameDisk.valid at found a stored_looked in
      record {
        valid = next.valid;
        storage = next.storage ∙ looked-SameDisk.storage;
        contents = refl;
      }

  refused_parent :
      may req w_ok parent_attr ≡ false → unlink names now req p name s ≡ (err eacces, looked)
  unfolding unlink
  refused_parent z = rw parent_run (rw z refl)

  refused_sticky :
      may req w_ok parent_attr ≡ true
      → sticky req parent_attr a ≡ true
      → unlink names now req p name s ≡ (err eacces, after_look h.ino a looked)
  unfolding unlink
  refused_sticky z y = rw parent_run (rw z (rw node_run (rw y refl)))

  permitted :
      may req w_ok parent_attr ≡ true
      → sticky req parent_attr a ≡ false
      → unlink names now req p name s
        ≡ call (λ x. enoent) (remove_file names now p name) (after_look h.ino a looked)
  unfolding unlink
  permitted z y = rw parent_run (rw z (rw node_run (rw y refl)))

  -- From a valid state, `unlink` of a name that stands for a regular file removes it, with its inode
  -- and its contents, if the caller may write to the directory and its sticky bit does not keep the
  -- caller from the file; otherwise it answers `EACCES`, and nothing changes on disk. The name's hash
  -- is not one of the directory's own links.
  pub unlink_lem :
      Ordinary (names.hash name)
      → h.kind ≡ regular_file
      → let (r, s') = unlink names now req p name s in
        ((may_remove req parent_attr a ≡ true) × (r ≡ ok tt) × IsRemoved names p d name h s s')
        ⊎ ((may_remove req parent_attr a ≡ false) × (r ≡ err eacces) × SameDisk s s')
  unlink_lem o file_kind =
      let s2 : Fs = after_look h.ino a looked in
      let removed =
        remove_file_lem names now p name d h s2 both-SameDisk.valid at found o file_kind in
      let outcome : Result Errno (Unit {0}) × Fs → Type 0 = λ x.
        ((may_remove req parent_attr a ≡ true) × (x.0 ≡ ok tt) × IsRemoved names p d name h s x.1)
        ⊎ ((may_remove req parent_attr a ≡ false) × (x.0 ≡ err eacces) × SameDisk s x.1) in
      elim (Bool-cases (may req w_ok parent_attr)) [
        | inr z ↦ subst outcome (sym (refused_parent z)) (inr (rw z refl, refl, looked-SameDisk))
        | inl z ↦ elim (Bool-cases (sticky req parent_attr a)) [
          | inl y ↦
              subst outcome (sym (refused_sticky z y)) (inr (rw z (rw y refl), refl, both-SameDisk))
          | inr y ↦ subst outcome (sym (permitted z y)) (
              inl (
                rw z (rw y refl),
                ap (answer (λ x. enoent)) removed.0,
                IsRemoved-from names p d name h s s2 (remove_file names now p name s2).1
                    both-SameDisk removed.1,
              ))
        ]
      ]
