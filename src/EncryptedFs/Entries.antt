-- ===== src/EncryptedFs/Entries.antt =====
-- src/encryptedfs.rs: the entries of a directory: finding, adding and removing one by its name.
pub mod Valid
pub mod Run
use encryptedfs.Prelude.{
  ℕ, ◌+◌, ◌-◌, ◌%◌, ◌^◌, Bool, not, Option, none, some, List, ◌==◌, if◌then◌else◌, length, Exec,
  pure, ◌>>=◌, Result, ok, err, ◌>>◌,
}
use encryptedfs.Prelude.Dict
use encryptedfs.EncryptedFs.{FsError, io, inode_not_found, invalid_inode_type}
use encryptedfs.EncryptedFs.Attr.{FileAttr}
use encryptedfs.EncryptedFs.Inodes.{get_inode_from_cache_or_storage}
use encryptedfs.EncryptedFs.Names.{Names}
use encryptedfs.EncryptedFs.Tree.{
  root_inode, on_inodes, dir_of, exists, on_dir, HashEntry, Dir, DirectoryEntry, Fs,
}

module _ (names : Names) where
  unfoldable pub exists_by_name : ℕ → List ℕ → Exec FsError Fs Bool
  exists_by_name parent name s =
      let found : Result FsError Bool = elim (dir_of parent s) [
        | none ↦ err invalid_inode_type
        | some d ↦ ok (Dict.contains (names.hash name) d.hash)
      ] in
      if not (exists parent s) then (err inode_not_found, s) else (found, s)

  unfoldable pub find_by_name : ℕ → List ℕ → Exec FsError Fs (Option FileAttr)
  find_by_name parent name s =
      let found : HashEntry → Exec FsError Fs (Option FileAttr) =
        (λ h. do attr ← on_inodes (get_inode_from_cache_or_storage h.ino); pure (some attr)) in
      let in_dir : Result FsError (Option FileAttr) × Fs = elim (dir_of parent s) [
        | none ↦ (err invalid_inode_type, s)
        | some d ↦ elim (Dict.lookup (names.hash name) d.hash) [
          | none ↦ (ok none, s)
          | some h ↦ found h s
        ]
      ] in
      if not (exists parent s) then (err inode_not_found, s) else in_dir

  -- How many entries there are but the two of the directory itself; the subtraction wraps.
  unfoldable pub len : ℕ → Exec FsError Fs ℕ
  len ino s = elim (dir_of ino s) [
    | none ↦ (err invalid_inode_type, s)
    | some d ↦
        (let own : ℕ = if ino == root_inode then 1 else 2 in
          (ok ((length d.ls + 2 ^ 64 - own) % 2 ^ 64), s))
  ]

  unfoldable pub encrypt_name : List ℕ → Exec FsError Fs (List ℕ)
  encrypt_name name s =
      (names.encrypt s.encryptions name, record s { encryptions = s.encryptions + 1 })

  abbrev pub add_entry : List ℕ → DirectoryEntry → Dir → Dir
  add_entry encrypted entry d = record {
    ls = Dict.insert encrypted (record { ino = entry.ino; kind = entry.kind }) d.ls;
    hash =
        Dict.insert (names.hash entry.name)
          (record { ino = entry.ino; kind = entry.kind; name = encrypted }) d.hash;
  }

  unfoldable pub insert_directory_entry : ℕ → DirectoryEntry → Exec FsError Fs (Unit {0})
  insert_directory_entry ino entry = do
    encrypted ← encrypt_name entry.name
    on_dir ino (λ d. (ok tt, add_entry encrypted entry d))

  -- The entry goes from `hash` first, which knows its encrypted name, and then from `ls`.
  unfoldable pub remove_entry : List ℕ → Exec FsError Dir (Unit {0})
  remove_entry name d = elim (Dict.lookup (names.hash name) d.hash) [
    | none ↦ (err io, d)
    | some h ↦
        (let d' : Dir = record d { hash = Dict.remove (names.hash name) d.hash } in
          if Dict.contains h.name d.ls
          then (ok tt, record d' { ls = Dict.remove h.name d.ls })
          else (err io, d'))
  ]

  unfoldable pub remove_directory_entry : ℕ → List ℕ → Exec FsError Fs (Unit {0})
  remove_directory_entry parent name = on_dir parent (remove_entry name)
