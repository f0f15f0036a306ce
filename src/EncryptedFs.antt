-- ===== src/EncryptedFs.antt =====
-- src/encryptedfs.rs: the file system over the encrypted files. `FsError` is without what its cases
-- carry from elsewhere, and with `panicked` for a panic. `diverged` is no outcome of the code: a loop
-- ran out of what the model gave it.
pub mod Attr
pub mod Inodes
pub mod Names
pub mod Tree
pub mod Handles
pub mod Files
pub mod Entries
pub mod Nodes
pub mod Rename
pub mod Root
pub mod Listing
pub mod Keys
pub mod Valid
use encryptedfs.Prelude.{ℕ}

pub data FsError : Type 0 where
  io serialize_error not_found inode_not_found invalid_input invalid_inode_type : FsError
  invalid_file_handle already_exists already_open_for_write not_empty other : FsError
  invalid_password invalid_data_dir_structure crypto keyring parse_int_error join_error : FsError
  max_filesize_exceeded : ℕ → FsError
  diverged panicked : FsError
