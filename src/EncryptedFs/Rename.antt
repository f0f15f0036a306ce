-- ===== src/EncryptedFs/Rename.antt =====
-- src/encryptedfs.rs: `rename`.
pub mod Steps
pub mod Move
pub mod Target
pub mod Whole
use encryptedfs.Prelude.{
  ℕ, not, ◌&&◌, none, some, List, ltb, ◌==◌, if◌then◌else◌, Exec, pure, raise, ◌>>=◌, ◌>>◌,
  raise_if, ok, err,
}
use encryptedfs.Prelude.Dict.{same}
use encryptedfs.EncryptedFs.{FsError, not_found, inode_not_found, invalid_inode_type, not_empty}
use encryptedfs.EncryptedFs.Attr.{nothing_set, with_atime, with_ctime, FileAttr, directory}
use encryptedfs.EncryptedFs.Inodes.{set_attr}
use encryptedfs.EncryptedFs.Names.{parent_dir, Names}
use encryptedfs.EncryptedFs.Tree.{on_inodes, exists, is_dir, Fs}
use encryptedfs.EncryptedFs.Entries.{
  exists_by_name, find_by_name, len, insert_directory_entry, remove_directory_entry,
}
use encryptedfs.EncryptedFs.Nodes.{set_now, is_directory}

module _ (names : Names) (now : ℕ) where
  -- Only an empty directory may be overwritten; a failure to find the target is no failure here.
  unfoldable pub check_target : ℕ → List ℕ → Exec FsError Fs (Unit {0})
  check_target new_parent new_name s =
      let (found, s') = find_by_name names new_parent new_name s in
      elim found [
        | err x ↦ (ok tt, s')
        | ok none ↦ (ok tt, s')
        | ok (some attr) ↦
            (let check : Exec FsError Fs (Unit {0}) = (do
              count ← len names attr.ino
              raise_if (ltb 0 count) not_empty) in
              if is_directory attr.kind then check s' else (ok tt, s'))
      ]

  -- The entry of the target, if there is one, goes; its inode and contents stay.
  unfoldable pub remove_target : ℕ → List ℕ → Exec FsError Fs (Unit {0})
  remove_target new_parent new_name = do
    there ← exists_by_name names new_parent new_name
    if there then remove_directory_entry names new_parent new_name else pure tt

  -- A directory is told its new parent.
  unfoldable pub link_parent : FileAttr → ℕ → Exec FsError Fs (Unit {0})
  link_parent attr new_parent =
      if is_directory attr.kind
      then insert_directory_entry names attr.ino
          (record { ino = new_parent; name = parent_dir; kind = directory })
      else pure tt

  unfoldable pub move_entry : ℕ → List ℕ → ℕ → List ℕ → Exec FsError Fs (Unit {0})
  move_entry parent name new_parent new_name = do
    check_target new_parent new_name
    found ← find_by_name names parent name
    attr ← elim found [ none ↦ raise not_found | some a ↦ pure a ]
    remove_directory_entry names parent name
    remove_target new_parent new_name
    insert_directory_entry names new_parent
        (record { ino = attr.ino; name = new_name; kind = attr.kind })
    link_parent attr new_parent
    on_inodes (set_attr now parent (set_now now))
    on_inodes (set_attr now new_parent (set_now now))
    on_inodes (set_attr now attr.ino (with_atime now (with_ctime now nothing_set)))

  unfoldable pub rename : ℕ → List ℕ → ℕ → List ℕ → Exec FsError Fs (Unit {0})
  rename parent name new_parent new_name s =
      let move : Exec FsError Fs (Unit {0}) = (do
        there ← exists_by_name names parent name
        raise_if (not there) not_found
        let no_op = parent == new_parent && same name new_name
        if no_op then pure tt else move_entry parent name new_parent new_name) in
      if not (exists parent s)
      then (err inode_not_found, s)
      else if not (is_dir parent s)
      then (err invalid_inode_type, s)
      else if not (exists new_parent s)
      then (err inode_not_found, s)
      else if not (is_dir new_parent s)
      then (err invalid_inode_type, s)
      else move s
