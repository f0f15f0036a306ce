-- ===== src/EncryptedFs/Listing.antt =====
-- src/encryptedfs.rs: `read_dir` and `read_dir_plus`. The entries are made by tasks that run at the same
-- time; here one after the other, in the order of the folder. An entry that fails is an item of the
-- listing.
pub mod Items
pub mod ReadDir
use encryptedfs.Prelude.{
  ℕ, none, some, List, [], ◌∷◌, if◌then◌else◌, Exec, pure, ◌>>=◌, Result, ok, err, ◌>>◌,
}
use encryptedfs.Prelude.Dict
use encryptedfs.Prelude.Dict.{same, Dict}
use encryptedfs.EncryptedFs.{FsError, invalid_input, invalid_inode_type}
use encryptedfs.EncryptedFs.Attr.{nothing_set, with_atime, FileType, FileAttr}
use encryptedfs.EncryptedFs.Inodes.{get_inode_from_cache_or_storage, set_attr}
use encryptedfs.EncryptedFs.Names.{this_dir, parent_dir, join, Names}
use encryptedfs.EncryptedFs.Tree.{on_inodes, dir_of, LsEntry, DirectoryEntry, Fs}
use encryptedfs.Crypto.Text.{dot}

-- `DirectoryEntryPlus`.
pub record DirectoryEntryPlus : Type 0 where
  pub ino : ℕ
  pub name : List ℕ
  pub kind : FileType
  pub attr : FileAttr

module _ (names : Names) where
  -- The decrypted name, from the cache or into it.
  unfoldable pub decrypt_entry_name : List ℕ → Exec FsError Fs (List ℕ)
  decrypt_entry_name name s = elim (Dict.lookup name s.dir_entries_name_cache) [
    | some cached ↦ (ok cached, s)
    | none ↦ elim (names.decrypt name) [
      | err x ↦ (err invalid_input, s)
      | ok plain ↦ (
        ok plain,
        record s { dir_entries_name_cache = Dict.insert name plain s.dir_entries_name_cache },
      )
    ]
  ]

  unfoldable pub entry_name : List ℕ → Exec FsError Fs (List ℕ)
  entry_name name =
      if same name this_dir
      then pure (dot ∷ [])
      else if same name parent_dir
      then pure (dot ∷ dot ∷ [])
      else decrypt_entry_name name

  -- What an entry stands for, from the cache or the file, and then into the cache.
  unfoldable pub entry_meta : ℕ → List ℕ → LsEntry → Exec FsError Fs LsEntry
  entry_meta ino name on_disk s =
      let path : List ℕ = join ino name in
      elim (Dict.lookup path s.dir_entries_meta_cache) [
        | some cached ↦ (ok cached, s)
        | none ↦ (
          ok on_disk,
          record s { dir_entries_meta_cache = Dict.insert path on_disk s.dir_entries_meta_cache },
        )
      ]

  unfoldable pub create_directory_entry : ℕ → List ℕ × LsEntry → Exec FsError Fs DirectoryEntry
  create_directory_entry ino (name, on_disk) = do
    plain ← entry_name name
    meta ← entry_meta ino name on_disk
    pure (record { ino = meta.ino; name = plain; kind = meta.kind })

  unfoldable pub create_directory_entry_plus :
      ℕ → List ℕ × LsEntry → Exec FsError Fs DirectoryEntryPlus
  create_directory_entry_plus ino entry = do
    e ← create_directory_entry ino entry
    attr ← on_inodes (get_inode_from_cache_or_storage e.ino)
    pure (record { ino = e.ino; name = e.name; kind = e.kind; attr = attr })

  -- The items of a listing, each made by `make`.
  unfoldable pub make_entries :
      {A : Type 0}
      → (List ℕ × LsEntry → Exec FsError Fs A)
      → Dict LsEntry
      → Fs
      → List (Result FsError A) × Fs
  make_entries make [] s = ([], s)
  make_entries make (entry ∷ rest) s =
      let (item, s') = make entry s in
      let (items, s'') = make_entries make rest s' in (item ∷ items, s'')

  -- Both listings: the folder as it is, then the access time, then the items.
  unfoldable pub list_dir :
      {A : Type 0}
      → (List ℕ × LsEntry → Exec FsError Fs A)
      → ℕ
      → ℕ
      → Exec FsError Fs (List (Result FsError A))
  list_dir make now ino s = elim (dir_of ino s) [
    | none ↦ (err invalid_inode_type, s)
    | some d ↦
        (let (r, s') = on_inodes (set_attr now ino (with_atime now nothing_set)) s in
          elim r [
            | err x ↦ (err x, s')
            | ok u ↦ (let (items, s'') = make_entries make d.ls s' in (ok items, s''))
          ])
  ]

  unfoldable pub read_dir : ℕ → ℕ → Exec FsError Fs (List (Result FsError DirectoryEntry))
  read_dir now ino = list_dir (create_directory_entry ino) now ino

  unfoldable pub read_dir_plus : ℕ → ℕ → Exec FsError Fs (List (Result FsError DirectoryEntryPlus))
  read_dir_plus now ino = list_dir (create_directory_entry_plus ino) now ino
