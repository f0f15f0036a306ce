-- ===== src/Mount.antt =====
-- src/mount/linux.rs: what the FUSE layer adds to the file system: who may do what. A mode is its
-- number, and `i32` masks are their bits.
pub mod Handlers
pub mod Bits
pub mod Access
pub mod Unlink
pub mod Chown
use encryptedfs.Prelude.{
  ℕ, zero, suc, ◌+◌, ◌-◌, ◌*◌, ◌/◌, ◌%◌, ◌^◌, Bool, true, not, ◌&&◌, ◌==◌, if◌then◌else◌,
}
use encryptedfs.EncryptedFs.Attr.{FileAttr}

-- The errors that are answered.
pub data Errno : Type 0 where
  enoent eacces eperm eio enotdir eisdir enotempty : Errno

-- `Request`.
pub record Request : Type 0 where
  pub uid : ℕ
  pub gid : ℕ
  pub pid : ℕ

-- `x & y` of `w` bits, and `x & !y`.
unfoldable pub bit_and : ℕ → ℕ → ℕ → ℕ
bit_and zero x y = 0
bit_and (suc w) x y = (x % 2) * (y % 2) + 2 * bit_and w (x / 2) (y / 2)

abbrev pub clear : ℕ → ℕ → ℕ → ℕ
clear w x y = x - bit_and w x y

abbrev pub s_isuid : ℕ
s_isuid = 2048

abbrev pub s_isgid : ℕ
s_isgid = 1024

abbrev pub s_isvtx : ℕ
s_isvtx = 512

abbrev pub w_ok : ℕ
w_ok = 2

-- A test of one bit of a mode.
abbrev pub has : ℕ → ℕ → Bool
has mode flag = not (bit_and 16 mode flag == 0)

-- The bits that root misses for the execution of a file; shifts are divisions.
abbrev pub root_missing : ℕ → ℕ → ℕ
root_missing mode access_mask =
    let m0 = bit_and 32 access_mask 1 in
    let m1 = clear 32 m0 (mode / 64) in let m2 = clear 32 m1 (mode / 8) in clear 32 m2 mode

unfoldable pub check_access : ℕ → ℕ → ℕ → ℕ → ℕ → ℕ → Bool
check_access file_uid file_gid file_mode uid gid access_mask =
    if access_mask == 0
    then true
    else if uid == 0
    then root_missing file_mode access_mask == 0
    else if uid == file_uid
    then clear 32 access_mask (file_mode / 64) == 0
    else if gid == file_gid
    then clear 32 access_mask (file_mode / 8) == 0
    else clear 32 access_mask file_mode == 0

-- `check_access` as it is called for an inode.
abbrev pub may : Request → ℕ → FileAttr → Bool
may req mask attr = check_access attr.uid attr.gid attr.perm req.uid req.gid mask

-- The sticky bit of a directory keeps a caller from an entry of another's.
abbrev pub sticky : Request → FileAttr → FileAttr → Bool
sticky req parent attr =
    has parent.perm s_isvtx
    && not (req.uid == 0)
    && not (req.uid == parent.uid)
    && not (req.uid == attr.uid)

unfoldable pub clear_suid_sgid : ℕ → ℕ
clear_suid_sgid perm = let p = clear 16 perm s_isuid in if has p 8 then clear 16 p s_isgid else p

unfoldable pub creation_gid : FileAttr → ℕ → ℕ
creation_gid parent gid = if has parent.perm s_isgid then parent.gid else gid

unfoldable pub creation_mode : Bool → ℕ → ℕ
creation_mode suid_support mode =
    if suid_support then mode % 2 ^ 16 else clear 32 mode (s_isuid + s_isgid) % 2 ^ 16
