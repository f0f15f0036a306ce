-- ===== src/EncryptedFs/Root.antt =====
-- src/encryptedfs.rs: making the root directory, for the user and the group that the process has.
pub mod Valid
use encryptedfs.Prelude.{ℕ, if◌then◌else◌, Exec, ◌>>◌, ok}
use encryptedfs.EncryptedFs.{FsError}
use encryptedfs.EncryptedFs.Attr.{from_create, FileAttr, directory}
use encryptedfs.EncryptedFs.Inodes.{write_inode_to_storage}
use encryptedfs.EncryptedFs.Names.{this_dir, Names}
use encryptedfs.EncryptedFs.Tree.{root_inode, on_inodes, exists, Fs}
use encryptedfs.EncryptedFs.Entries.{insert_directory_entry}
use encryptedfs.EncryptedFs.Nodes.{create_contents_dir}

-- The attributes of the root; 493 is 0o755.
abbrev pub root_attr : ℕ → ℕ → ℕ → FileAttr
root_attr now uid gid =
    record (from_create now
      (record { kind = directory; perm = 493; uid = 0; gid = 0; rdev = 0; flags = 0 })) {
        ino = root_inode;
        uid = uid;
        gid = gid;
      }

module _ (names : Names) (now uid gid : ℕ) where
  unfoldable pub create_root : Exec FsError Fs (Unit {0})
  create_root = do
    on_inodes (write_inode_to_storage (root_attr now uid gid))
    create_contents_dir root_inode
    insert_directory_entry names root_inode
        (record { ino = root_inode; name = this_dir; kind = directory })

  unfoldable pub ensure_root_exists : Exec FsError Fs (Unit {0})
  ensure_root_exists s = if exists root_inode s then (ok tt, s) else create_root s
