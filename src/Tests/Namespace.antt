-- ===== src/Tests/Namespace.antt =====
-- The theorems on the namespace at a small file system: the root with a file and a directory.
-- A name's hash begins with a 9 here, and its encryption with the count of encryptions.
use encryptedfs.Prelude.{
  ℕ, ◌<◌, ◌≡◌, refl, ◌⊎◌, Bool, true, false, ◌||◌, none, some, List, [], ◌∷◌, arith, if◌then◌else◌,
  drop, ok, err,
}
use encryptedfs.Prelude.Dict
use encryptedfs.Prelude.Dict.{Dict, same, same_refl, same→eq}
use encryptedfs.EncryptedFs.{not_empty}
use encryptedfs.EncryptedFs.{not_empty}
use encryptedfs.EncryptedFs.Attr.{
  from_create, merge_attr, FileType, CreateFileAttr, directory, regular_file,
}
use encryptedfs.EncryptedFs.Inodes.{
  get_inode_from_storage, put_cache, get_inode_from_cache_or_storage, merge_reads, merge_open_reads,
  merge_open_write, get_attr, write_inode_to_storage, set_attr2, set_attr,
}
use encryptedfs.EncryptedFs.Names.{this_dir, parent_dir, Names, IsNames}
use encryptedfs.EncryptedFs.Tree.{dir_of, exists, HashEntry, Dir, Fs}
use encryptedfs.EncryptedFs.Handles.{open_handle}
use encryptedfs.EncryptedFs.Entries.{exists_by_name, encrypt_name, insert_directory_entry}
use encryptedfs.EncryptedFs.Nodes.{
  generate_next_inode, create_contents_file, create_contents_dir, create_dir, create_contents,
  create_handle, create_node, create, remove_file, remove_dir,
}
use encryptedfs.EncryptedFs.Nodes.Remove.{IsRemoved}
use encryptedfs.EncryptedFs.Nodes.Removal.{own_entries, remove_file_lem, remove_dir_lem, SameDisk}
use encryptedfs.EncryptedFs.Rename.{rename}
use encryptedfs.EncryptedFs.Rename.Steps.{Replaceable}
use encryptedfs.EncryptedFs.Valid.{IsFs}
use encryptedfs.EncryptedFs.Root.{create_root, ensure_root_exists}
use encryptedfs.EncryptedFs.Root.Valid.{no_files, no_files-IsFs, ensure_root_exists_lem}
use encryptedfs.EncryptedFs.Nodes.Next.{IsFree, generate_next_inode_lem}
use encryptedfs.EncryptedFs.Nodes.Contents.{no_entries}
use encryptedfs.EncryptedFs.Nodes.Create.{create_lem, IsCreated}
use encryptedfs.EncryptedFs.Rename.Move.{IsMoved}
use encryptedfs.EncryptedFs.Rename.Target.{Full}
use encryptedfs.EncryptedFs.Rename.Whole.{rename_lem}
use encryptedfs.EncryptedFs.Handles.Writers.{IsHandles}
use encryptedfs.EncryptedFs.Handles.Open.{open_handle-IsHandles}

abbrev pub is_own : List ℕ → Bool
is_own name = same name this_dir || same name parent_dir

abbrev pub names : Names
names = record {
  hash = λ name. if is_own name then name else 9 ∷ name;
  encrypt = λ i name. ok (if is_own name then name else i ∷ name);
  decrypt = λ name. ok (drop 1 name);
}

names-IsNames : IsNames names
names-IsNames = record {
  hash_this = refl;
  hash_parent = refl;
  encrypt_this = λ i. refl;
  encrypt_parent = λ i. refl;
}

abbrev pub create_attr : FileType → CreateFileAttr
create_attr kind = record { kind = kind; perm = 420; uid = 1; gid = 1; rdev = 0; flags = 0 }

abbrev pub root_only : Fs
root_only = (ensure_root_exists names 10 1 1 no_files).1

ensure_root_exists_lem_example :
    let (r, s) = ensure_root_exists names 10 1 1 no_files in
    (r ≡ ok tt) × IsFs s × (exists 1 s ≡ true)
ensure_root_exists_lem_example =
    ensure_root_exists_lem names 10 1 1 no_files names-IsNames no_files-IsFs

generate_next_inode_lem_example :
    (ino : ℕ) × (generate_next_inode (0 ∷ 1 ∷ 7 ∷ 8 ∷ []) root_only ≡ some ino)
    × IsFree ino root_only
unfolding ensure_root_exists create_root write_inode_to_storage put_cache create_contents_dir
    insert_directory_entry encrypt_name
generate_next_inode_lem_example =
    generate_next_inode_lem (0 ∷ 1 ∷ []) (8 ∷ []) 7 root_only (omega arith, refl)

-- The state after one `create` in the root.
abbrev pub with_new : ℕ → List ℕ → FileType → Fs → Fs
with_new ino name kind s = (create names 20 (ino ∷ []) 1 name (create_attr kind) false false s).1

abbrev pub folders : ℕ → Fs → Dir
folders ino s = elim (dir_of ino s) [ none ↦ no_entries | some d ↦ d ]

abbrev pub one_file : Fs
one_file = with_new 2 (97 ∷ []) regular_file root_only

create_lem_example :
    let (r, s) =
      create names 20 (2 ∷ []) 1 (97 ∷ []) (create_attr regular_file) false false root_only in
    (r ≡ ok (0, record (from_create 20 (create_attr regular_file)) { ino = 2 }))
    × IsCreated names 1
        (folders 1 root_only)
        (97 ∷ [])
        (1 ∷ 97 ∷ [])
        (record (from_create 20 (create_attr regular_file)) { ino = 2 })
        root_only
        s
unfolding ensure_root_exists create_root write_inode_to_storage put_cache create_contents_dir
    insert_directory_entry encrypt_name create create_node generate_next_inode exists_by_name
    create_contents create_contents_file create_dir set_attr set_attr2 get_attr
    get_inode_from_cache_or_storage get_inode_from_storage merge_open_write merge_open_reads
    merge_reads merge_attr create_handle
create_lem_example =
    create_lem names names-IsNames 20 1 (97 ∷ []) (1 ∷ 97 ∷ []) (folders 1 root_only)
      (create_attr regular_file) 2 root_only
      (ensure_root_exists_lem names 10 1 1 no_files names-IsNames no_files-IsFs).1 refl
      (omega arith, refl) (refl, refl) refl refl refl refl (2 ∷ []) false false refl refl refl

pub one_file-IsFs : IsFs one_file
one_file-IsFs = create_lem_example.1.valid

abbrev two_nodes : Fs
two_nodes = with_new 3 (98 ∷ []) directory one_file

abbrev pub file_entry : HashEntry
file_entry = record { ino = 2; kind = regular_file; name = 1 ∷ 97 ∷ [] }

abbrev dir_entry : HashEntry
dir_entry = record { ino = 3; kind = directory; name = 4 ∷ 98 ∷ [] }

two_nodes-IsFs : IsFs two_nodes
unfolding ensure_root_exists create_root write_inode_to_storage put_cache create_contents_dir
    insert_directory_entry encrypt_name create create_node generate_next_inode exists_by_name
    create_contents create_contents_file create_dir set_attr set_attr2 get_attr
    get_inode_from_cache_or_storage get_inode_from_storage merge_open_write merge_open_reads
    merge_reads merge_attr create_handle
two_nodes-IsFs =
    (create_lem names names-IsNames 20 1 (98 ∷ []) (4 ∷ 98 ∷ []) (folders 1 one_file)
      (create_attr directory) 3 one_file one_file-IsFs refl (omega arith, refl) (refl, refl) refl
      refl refl refl (3 ∷ []) false false refl refl refl).1.valid

remove_file_lem_example :
    let (r, s) = remove_file names 30 1 (97 ∷ []) two_nodes in
    (r ≡ ok tt) × IsRemoved names 1 (folders 1 two_nodes) (97 ∷ []) file_entry two_nodes s
unfolding ensure_root_exists create_root write_inode_to_storage put_cache create_contents_dir
    insert_directory_entry encrypt_name create create_node generate_next_inode exists_by_name
    create_contents create_contents_file create_dir set_attr set_attr2 get_attr
    get_inode_from_cache_or_storage get_inode_from_storage merge_open_write merge_open_reads
    merge_reads merge_attr create_handle
remove_file_lem_example =
    remove_file_lem names 30 1 (97 ∷ []) (folders 1 two_nodes) file_entry two_nodes two_nodes-IsFs
      refl refl (refl, refl) refl

remove_dir_lem_example :
    let (r, s) = remove_dir names 30 1 (98 ∷ []) two_nodes in
    ((2 ≡ own_entries 3)
      × (r ≡ ok tt)
      × IsRemoved names 1 (folders 1 two_nodes) (98 ∷ []) dir_entry two_nodes s)
    ⊎ ((own_entries 3 < 2) × (r ≡ err not_empty) × SameDisk two_nodes s)
unfolding ensure_root_exists create_root write_inode_to_storage put_cache create_contents_dir
    insert_directory_entry encrypt_name create create_node generate_next_inode exists_by_name
    create_contents create_contents_file create_dir set_attr set_attr2 get_attr
    get_inode_from_cache_or_storage get_inode_from_storage merge_open_write merge_open_reads
    merge_reads merge_attr create_handle
remove_dir_lem_example =
    remove_dir_lem names 30 1 (98 ∷ []) (folders 1 two_nodes) dir_entry two_nodes two_nodes-IsFs
      refl refl (folders 3 two_nodes) (refl, refl) refl refl refl (omega arith) (omega arith)

rename_lem_example :
    let (r, s) = rename names 30 1 (97 ∷ []) 3 (99 ∷ []) two_nodes in
    let target = Dict.lookup (9 ∷ 99 ∷ []) (folders 3 two_nodes).hash in
    (Replaceable two_nodes.contents target
      × (r ≡ ok tt)
      × IsMoved 1 (9 ∷ 97 ∷ []) 3 (9 ∷ 99 ∷ []) (5 ∷ 99 ∷ []) file_entry two_nodes s)
    ⊎ (Full two_nodes.contents target × (r ≡ err not_empty) × SameDisk two_nodes s)
unfolding ensure_root_exists create_root write_inode_to_storage put_cache create_contents_dir
    insert_directory_entry encrypt_name create create_node generate_next_inode exists_by_name
    create_contents create_contents_file create_dir set_attr set_attr2 get_attr
    get_inode_from_cache_or_storage get_inode_from_storage merge_open_write merge_open_reads
    merge_reads merge_attr create_handle
rename_lem_example =
    rename_lem names names-IsNames 30 1 3 (97 ∷ []) (99 ∷ []) (5 ∷ 99 ∷ []) (folders 1 two_nodes)
      (folders 3 two_nodes) file_entry two_nodes two_nodes-IsFs refl refl refl (refl, refl)
      (refl, refl) refl (λ t e found there. absurd (ground (arith, found))) refl refl refl

two_nodes-IsHandles : IsHandles two_nodes
unfolding ensure_root_exists create_root write_inode_to_storage put_cache create_contents_dir
    insert_directory_entry encrypt_name create create_node generate_next_inode exists_by_name
    create_contents create_contents_file create_dir set_attr set_attr2 get_attr
    get_inode_from_cache_or_storage get_inode_from_storage merge_open_write merge_open_reads
    merge_reads merge_attr create_handle
two_nodes-IsHandles = record {
  writers = λ fh ctx e. absurd (ground (arith, e));
  drawn = λ fh ctx e. absurd (ground (arith, e));
}

open_handle-IsHandles_example : IsHandles (open_handle 2 true true two_nodes).1
unfolding ensure_root_exists create_root write_inode_to_storage put_cache create_contents_dir
    insert_directory_entry encrypt_name create create_node generate_next_inode exists_by_name
    create_contents create_contents_file create_dir set_attr set_attr2 get_attr
    get_inode_from_cache_or_storage get_inode_from_storage merge_open_write merge_open_reads
    merge_reads merge_attr create_handle
open_handle-IsHandles_example =
    open_handle-IsHandles 2 two_nodes two_nodes-IsHandles (omega arith) true true
