-- ===== src/EncryptedFs/Nodes.antt =====
-- src/encryptedfs.rs: making and removing nodes. The clock stands still during a call, and the tasks
-- that `create` starts run in the order in which it starts them; they touch different files.
pub mod Next
pub mod Contents
pub mod Made
pub mod Create
pub mod Remove
pub mod Removal
use encryptedfs.Prelude.{
  ℕ, Bool, true, false, not, ◌&&◌, ◌||◌, Option, none, some, List, [], ◌∷◌, ltb, leb, if◌then◌else◌,
  Exec, pure, raise, ◌>>=◌, ◌>>◌, raise_if, Result, ok, err,
}
use encryptedfs.Prelude.Assoc.{contains, insert, remove}
use encryptedfs.EncryptedFs.{
  FsError, io, not_found, inode_not_found, invalid_input, invalid_inode_type, already_exists,
  not_empty, diverged,
}
use encryptedfs.EncryptedFs.Attr.{
  nothing_set, with_atime, with_mtime, with_ctime, from_create, FileType, FileAttr, SetFileAttr,
  CreateFileAttr, directory, regular_file,
}
use encryptedfs.EncryptedFs.Inodes.{write_inode_to_storage, set_attr, Inodes}
use encryptedfs.EncryptedFs.Names.{this_dir, parent_dir, Names}
use encryptedfs.EncryptedFs.Tree.{root_inode, on_inodes, exists, is_dir, is_file, Fs, file, dir}
use encryptedfs.EncryptedFs.Handles.{open_handle}
use encryptedfs.EncryptedFs.Entries.{
  exists_by_name, find_by_name, len, insert_directory_entry, remove_directory_entry,
}
use encryptedfs.Crypto.Text.{is_dots}

-- The first number of the random sequence that is above the root's and not in use; `none` where the
-- given part of the sequence has no such number.
unfoldable pub generate_next_inode : List ℕ → Fs → Option ℕ
generate_next_inode [] s = none
generate_next_inode (ino ∷ rest) s =
    if leb ino root_inode || exists ino s then generate_next_inode rest s else some ino

-- What the host does for `File::create` and `create_dir`.
unfoldable pub create_contents_file : ℕ → Exec FsError Fs (Unit {0})
create_contents_file ino s =
    if is_dir ino s
    then (err io, s)
    else (ok tt, record s { contents = insert ino (file []) s.contents })

unfoldable pub create_contents_dir : ℕ → Exec FsError Fs (Unit {0})
create_contents_dir ino s = if contains ino s.contents then (err io, s) else (
  ok tt,
  record s { contents = insert ino (dir (record { ls = []; hash = [] })) s.contents },
)

-- The three times that a change of a directory's entries sets.
abbrev pub set_now : ℕ → SetFileAttr
set_now now = with_atime now (with_ctime now (with_mtime now nothing_set))

-- What the host removes.
unfoldable pub remove_inode_file : ℕ → Exec FsError Fs (Unit {0})
remove_inode_file ino s =
    let i : Inodes = s.inodes in
    if exists ino s
    then (ok tt, record s { inodes = record i { storage = remove ino i.storage } })
    else (err io, s)

unfoldable pub remove_contents_file : ℕ → Exec FsError Fs (Unit {0})
remove_contents_file ino s =
    if is_file ino s then (ok tt, record s { contents = remove ino s.contents }) else (err io, s)

unfoldable pub remove_contents_dir : ℕ → Exec FsError Fs (Unit {0})
remove_contents_dir ino s =
    if is_dir ino s then (ok tt, record s { contents = remove ino s.contents }) else (err io, s)

abbrev pub is_directory : FileType → Bool
is_directory directory = true
is_directory regular_file = false

module _ (names : Names) (now : ℕ) where
  -- The part of `create` for a directory: its folders, and the entries for itself and its parent.
  unfoldable pub create_dir : ℕ → ℕ → Exec FsError Fs (Unit {0})
  create_dir ino parent = do
    create_contents_dir ino
    insert_directory_entry names ino (record { ino = ino; name = this_dir; kind = directory })
    insert_directory_entry names ino (record { ino = parent; name = parent_dir; kind = directory })

  unfoldable pub create_contents : FileType → ℕ → ℕ → Exec FsError Fs (Unit {0})
  create_contents regular_file ino parent = create_contents_file ino
  create_contents directory ino parent = create_dir ino parent

  -- The handle that `create` returns: none, which is 0, but for a file to be opened.
  unfoldable pub create_handle : FileAttr → Bool → Bool → Exec FsError Fs ℕ
  create_handle attr read write =
      if not (is_directory attr.kind) && (read || write)
      then open_handle attr.ino read write
      else pure 0

  -- `create` past its guards, for the inode's number.
  unfoldable pub create_node :
      ℕ → List ℕ → CreateFileAttr → Bool → Bool → ℕ → Exec FsError Fs (ℕ × FileAttr)
  create_node parent name create_attr read write ino = do
    let attr : FileAttr = record (from_create now create_attr) { ino = ino }
    on_inodes (write_inode_to_storage attr)
    create_contents attr.kind ino parent
    insert_directory_entry names parent (record { ino = ino; name = name; kind = attr.kind })
    on_inodes (set_attr now parent (set_now now))
    handle ← create_handle attr read write
    pure (handle, attr)

  -- `draws` are the numbers that the generator gives.
  unfoldable pub create :
      List ℕ → ℕ → List ℕ → CreateFileAttr → Bool → Bool → Exec FsError Fs (ℕ × FileAttr)
  create draws parent name create_attr read write s =
      let node : Result FsError (ℕ × FileAttr) × Fs = elim (generate_next_inode draws s) [
        | none ↦ (err diverged, s)
        | some ino ↦ create_node parent name create_attr read write ino s
      ] in
      if is_dots name
      then (err invalid_input, s)
      else if not (exists parent s)
      then (err inode_not_found, s)
      else (let (found, s') = exists_by_name names parent name s in
          elim found [
            | err x ↦ (err x, s')
            | ok there ↦ if there then (err already_exists, s') else node
          ])

  -- What `remove_file` and `remove_dir` do once they may; `remove_contents` is what differs. The
  -- cache entry is only made the next to go.
  unfoldable pub remove_node :
      (ℕ → Exec FsError Fs (Unit {0})) → ℕ → List ℕ → ℕ → Exec FsError Fs (Unit {0})
  remove_node remove_contents parent name ino = do
    remove_inode_file ino
    remove_contents ino
    remove_directory_entry names parent name
    on_inodes (set_attr now parent (set_now now))

  -- The node that a name stands for, which the two begin with.
  unfoldable pub find_node : ℕ → List ℕ → Exec FsError Fs FileAttr
  find_node parent name = do
    there ← exists_by_name names parent name
    raise_if (not there) not_found
    found ← find_by_name names parent name
    elim found [ none ↦ raise not_found | some attr ↦ pure attr ]

  unfoldable pub remove_file : ℕ → List ℕ → Exec FsError Fs (Unit {0})
  remove_file parent name s =
      let go : Exec FsError Fs (Unit {0}) = (do
        attr ← find_node parent name
        raise_if (is_directory attr.kind) invalid_inode_type
        remove_node remove_contents_file parent name attr.ino) in
      if not (is_dir parent s) then (err invalid_inode_type, s) else go s

  unfoldable pub remove_dir : ℕ → List ℕ → Exec FsError Fs (Unit {0})
  remove_dir parent name s =
      let go : Exec FsError Fs (Unit {0}) = (do
        attr ← find_node parent name
        raise_if (not (is_directory attr.kind)) invalid_inode_type
        count ← len names attr.ino
        raise_if (ltb 0 count) not_empty
        remove_node remove_contents_dir parent name attr.ino) in
      if not (is_dir parent s) then (err invalid_inode_type, s) else go s
