-- ===== src/EncryptedFs/Nodes/Removal.antt =====
-- `remove_file` and `remove_dir`.
use encryptedfs.Prelude.{
  ℕ, ◌≡◌, refl, ap, ◌∙◌, false, some, List, ◌==◌, if◌then◌else◌, Exec, ok, sym, subst, inl, inr,
  true, arith, Bool-cases, ◌-◌, ◌^◌, ◌≤◌, ◌<◌, ◌⊎◌, length, Result, err,
}
use encryptedfs.Prelude.Assoc.{lookup, remove}
use encryptedfs.Prelude.Dict
use encryptedfs.EncryptedFs.{FsError, not_empty}
use encryptedfs.EncryptedFs.Attr.{FileAttr, regular_file, directory}
use encryptedfs.EncryptedFs.Inodes.Synced.{storage-after_read}
use encryptedfs.EncryptedFs.Names.{Names}
use encryptedfs.EncryptedFs.Tree.{root_inode, HashEntry, Dir, Fs, dir}
use encryptedfs.EncryptedFs.Entries.{find_by_name, len}
use encryptedfs.EncryptedFs.Entries.Run.{after_look, there_run, find_run, dir-exists}
use encryptedfs.EncryptedFs.Nodes.{
  remove_node, find_node, remove_contents_file, remove_file, remove_contents_dir, remove_dir,
}
use encryptedfs.EncryptedFs.Nodes.Remove.{remove_node_run, remove_node_lem, IsRemoved, final}
use encryptedfs.EncryptedFs.Valid.{Ordinary, IsFs, Holds}
use encryptedfs.EncryptedFs.Valid.Touch.{after_read-IsFs}

-- What a directory of this number lists when it has no entries but its own.
abbrev pub own_entries : ℕ → ℕ
own_entries ino = if ino == root_inode then 1 else 2

-- Nothing is different on disk, and the state is valid.
pub record SameDisk (s s' : Fs) : Type 0 where
  pub valid : IsFs s'
  pub storage : s'.inodes.storage ≡ s.inodes.storage
  pub contents : s'.contents ≡ s.contents

module _ (names : Names) (now p : ℕ) (name : List ℕ) (d : Dir) (h : HashEntry) (s : Fs) (v : IsFs s)
    (at : lookup p s.contents ≡ some (dir d))
    (found : Dict.lookup (names.hash name) d.hash ≡ some h) where
  module _ (a : FileAttr) (stored : lookup h.ino s.inodes.storage ≡ some a) where
    pub find_entry : find_by_name names p name s ≡ (ok (some a), after_look h.ino a s)
    find_entry =
        find_run names p d s at (dir-exists p s v at).2 name h a found
          (λ b hit. v.synced h.ino a b hit stored) stored

    pub find_node_run : find_node names now p name s ≡ (ok a, after_look h.ino a s)
    unfolding find_node
    find_node_run =
        let there : Dict.contains (names.hash name) d.hash ≡ true = ground (arith, found) in
        rw (there_run names p d s at (dir-exists p s v at).2 name) (rw there (rw find_entry refl))

    pub look-SameDisk : SameDisk s (after_look h.ino a s)
    look-SameDisk = record {
      valid = after_read-IsFs h.ino a s v stored;
      storage = storage-after_read h.ino a s.inodes;
      contents = refl;
    }

  module _ (o : Ordinary (names.hash name)) (apart : (h.ino == p) ≡ false) (a : FileAttr)
      (stored : lookup h.ino s.inodes.storage ≡ some a)
      (remove_contents : ℕ → Exec FsError Fs (Unit {0}))
      (host : (s1 : Fs)
        → s1.contents ≡ s.contents
        → remove_contents h.ino s1
          ≡ (ok tt, record s1 { contents = remove h.ino s1.contents })) where
    -- The removal after the node was looked up.
    pub remove_found :
        (s' : Fs) × (remove_node names now remove_contents p name h.ino (after_look h.ino a s)
          ≡ (ok tt, s'))
        × IsRemoved names p d name h s s'
    remove_found =
        let s1 : Fs = after_look h.ino a s in
        let same = look-SameDisk a stored in
        let (pa, parent, there) = dir-exists p s1 same.valid at in
        let removed =
          remove_node_lem names now p name d h s1 same.valid at found o apart pa parent in
        (
          final names now p name d h s1 same.valid at found o apart pa parent,
          remove_node_run names now p name d h s1 same.valid at found o apart pa parent a
              remove_contents (ap (lookup h.ino) same.storage ∙ stored) host,
          record {
            valid = removed.valid;
            unnamed = removed.unnamed;
            no_inode = removed.no_inode;
            no_contents = removed.no_contents;
            parent = removed.parent;
            rest = λ j another another_p.
                let (e, e') = removed.rest j another another_p in
                (e ∙ ap (lookup j) same.storage, e');
          },
        )

  -- From a valid state, `remove_file` of a name that stands for a regular file succeeds: the name, the
  -- inode and its contents are gone, the parent's folders lose just that entry, and the state is
  -- valid. The name's hash is not one of the directory's own links.
  pub remove_file_lem :
      Ordinary (names.hash name)
      → h.kind ≡ regular_file
      → let (r, s') = remove_file names now p name s in
        (r ≡ ok tt) × IsRemoved names p d name h s s'
  unfolding remove_file remove_contents_file
  remove_file_lem o file_kind =
      let (a, stored, kind) = v.entries p (names.hash name) h (d, at, found, o) in
      let (bytes, e) =
        subst (λ x. Holds x (lookup h.ino s.contents)) (kind ∙ file_kind)
          (v.kinds h.ino a stored) in
      let apart : (h.ino == p) ≡ false = elim (Bool-cases (h.ino == p)) [
        | inl z ↦ absurd (ground (arith, z, at, e))
        | inr z ↦ z
      ] in
      let (s', run, removed) =
        remove_found o apart a stored remove_contents_file
          (λ s1 same. ground (arith, e, ap (lookup h.ino) same)) in
      let named : a.ino ≡ h.ino = v.named h.ino a stored in
      let all : remove_file names now p name s ≡ (ok tt, s') =
        ground (arith, at, find_node_run a stored, kind, file_kind, named, run) in
      subst (λ o. (o.0 ≡ ok tt) × IsRemoved names p d name h s o.1) (sym all) (refl, removed)

  -- How many entries a directory has, as `remove_dir` counts them.
  pub len_run :
      (ino : ℕ) (e : Dir) (s1 : Fs)
      → lookup ino s1.contents ≡ some (dir e)
      → own_entries ino ≤ length e.ls
      → length e.ls < 2 ^ 64
      → len names ino s1 ≡ (ok (length e.ls - own_entries ino), s1)
  unfolding len
  len_run ino e s1 there least most = ground (arith, there)

  -- From a valid state, `remove_dir` of a name that stands for a directory with no entries but its own
  -- succeeds: the name, the inode and its folders are gone, the parent's folders lose just that entry,
  -- and the state is valid. Of one with more entries it fails with `NotEmpty`; nothing changes on disk,
  -- and the state is valid. The name's hash is not one of the parent's own links, the directory is not
  -- the parent, and it lists as many entries as it has of its own at least, and fewer than 2^64.
  pub remove_dir_lem :
      (e : Dir)
      → Ordinary (names.hash name)
      → h.kind ≡ directory
      → (h.ino == p) ≡ false
      → lookup h.ino s.contents ≡ some (dir e)
      → own_entries h.ino ≤ length e.ls
      → length e.ls < 2 ^ 64
      → let (r, s') = remove_dir names now p name s in
        ((length e.ls ≡ own_entries h.ino) × (r ≡ ok tt) × IsRemoved names p d name h s s')
        ⊎ ((own_entries h.ino < length e.ls) × (r ≡ err not_empty) × SameDisk s s')
  unfolding remove_dir remove_contents_dir
  remove_dir_lem e o dir_kind apart there least most =
      let (a, stored, kind) = v.entries p (names.hash name) h (d, at, found, o) in
      let (s', run, removed) =
        remove_found o apart a stored remove_contents_dir
          (λ s1 same. ground (arith, there, ap (lookup h.ino) same)) in
      let named : a.ino ≡ h.ino = v.named h.ino a stored in
      let count = len_run h.ino e (after_look h.ino a s) there least most in
      let outcome : Result FsError (Unit {0}) × Fs → Type 0 = λ o.
        ((length e.ls ≡ own_entries h.ino) × (o.0 ≡ ok tt) × IsRemoved names p d name h s o.1)
        ⊎ ((own_entries h.ino < length e.ls) × (o.0 ≡ err not_empty) × SameDisk s o.1) in
      elim (Bool-cases (length e.ls == own_entries h.ino)) [
        | inl z ↦
            (let all : remove_dir names now p name s ≡ (ok tt, s') =
                ground (arith, at, find_node_run a stored, kind, dir_kind, named, count, z, run) in
              subst outcome (sym all) (inl (ground (arith, z), refl, removed)))
        | inr z ↦
            (let all : remove_dir names now p name s ≡ (err not_empty, after_look h.ino a s) =
                ground
                  (arith, at, find_node_run a stored, kind, dir_kind, named, count, z, least) in
              subst outcome (sym all)
                (inr (ground (arith, z, least), refl, look-SameDisk a stored)))
      ]
