-- ===== src/Tests/Mount.antt =====
-- The theorems on the FUSE layer at the root with one file.
use encryptedfs.Prelude.{
  ◌≡◌, refl, ◌↔◌, ◌⊎◌, true, false, none, some, [], ◌∷◌, arith, ◌==◌, ok, err,
}
use encryptedfs.Tests.Namespace.{names, one_file, one_file-IsFs, file_entry, folders}
use encryptedfs.Mount.{check_access, Request, eacces}
use encryptedfs.Mount.Handlers.{unlink, setattr_owner}
use encryptedfs.Mount.Access.{class_of, Permits, check_access_lem}
use encryptedfs.Mount.Unlink.{may_remove, unlink_lem}
use encryptedfs.Mount.Chown.{setattr_owner_lem}
use encryptedfs.EncryptedFs.Attr.{merge_attr, FileAttr}
use encryptedfs.EncryptedFs.Inodes.{
  get_inode_from_storage, put_cache, get_inode_from_cache_or_storage, merge_reads, merge_open_reads,
  merge_open_write, get_attr, write_inode_to_storage, set_attr2, set_attr,
}
use encryptedfs.EncryptedFs.Inodes.Named.{merged}
use encryptedfs.EncryptedFs.Entries.{exists_by_name, encrypt_name, insert_directory_entry}
use encryptedfs.EncryptedFs.Nodes.{
  generate_next_inode, create_contents_file, create_contents_dir, create_dir, create_contents,
  create_handle, create_node, create,
}
use encryptedfs.EncryptedFs.Nodes.Remove.{IsRemoved}
use encryptedfs.EncryptedFs.Nodes.Removal.{SameDisk}
use encryptedfs.EncryptedFs.Root.{root_attr, create_root, ensure_root_exists}
use encryptedfs.Prelude.Assoc.{lookup}

-- Another user.
abbrev caller : Request
caller = record { uid = 5; gid = 6; pid = 1 }

abbrev root_dir_attr : FileAttr
root_dir_attr = elim (lookup 1 one_file.inodes.storage) [ none ↦ root_attr 0 0 0 | some a ↦ a ]

abbrev a_file_attr : FileAttr
a_file_attr = elim (lookup 2 one_file.inodes.storage) [ none ↦ root_attr 0 0 0 | some a ↦ a ]

check_access_lem_example :
    (check_access 1 2 420 5 2 4 ≡ true) ↔ Permits (5 == 0) (class_of 1 2 420 5 2) 420 4
check_access_lem_example = check_access_lem 1 2 420 5 2 4 (omega arith)

unlink_lem_example :
    let (r, s) = unlink names 50 caller 1 (97 ∷ []) one_file in
    ((may_remove caller (merged 1 one_file.inodes root_dir_attr) a_file_attr ≡ true)
      × (r ≡ ok tt)
      × IsRemoved names 1 (folders 1 one_file) (97 ∷ []) file_entry one_file s)
    ⊎ ((may_remove caller (merged 1 one_file.inodes root_dir_attr) a_file_attr ≡ false)
        × (r ≡ err eacces)
        × SameDisk one_file s)
unfolding ensure_root_exists create_root write_inode_to_storage put_cache create_contents_dir
    insert_directory_entry encrypt_name create create_node generate_next_inode exists_by_name
    create_contents create_contents_file create_dir set_attr set_attr2 get_attr
    get_inode_from_cache_or_storage get_inode_from_storage merge_open_write merge_open_reads
    merge_reads merge_attr create_handle
unlink_lem_example =
    unlink_lem names 50 caller 1 (97 ∷ []) (folders 1 one_file) file_entry one_file one_file-IsFs
      refl refl root_dir_attr a_file_attr refl refl (refl, refl) refl

setattr_owner_lem_example :
    let (r, s) = setattr_owner (λ pid. []) 50 caller 2 none (some 5) none one_file in
    (b : FileAttr) × (c : FileAttr) × (r ≡ ok (some b))
    × (b.uid ≡ 1)
    × (b.gid ≡ 1)
    × (lookup 2 s.inodes.storage ≡ some c)
    × (c.uid ≡ 1)
    × (c.gid ≡ 1)
unfolding ensure_root_exists create_root write_inode_to_storage put_cache create_contents_dir
    insert_directory_entry encrypt_name create create_node generate_next_inode exists_by_name
    create_contents create_contents_file create_dir set_attr set_attr2 get_attr
    get_inode_from_cache_or_storage get_inode_from_storage merge_open_write merge_open_reads
    merge_reads merge_attr create_handle
setattr_owner_lem_example =
    setattr_owner_lem (λ pid. []) 50 caller 2 one_file one_file-IsFs a_file_attr refl (some 5) none
      refl
