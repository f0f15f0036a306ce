-- ===== src/EncryptedFs/Attr.antt =====
-- src/encryptedfs.rs: the attributes of a file, what a caller may set of them, and `merge_attr`. A
-- `SystemTime` is a number.
pub mod Merge
use encryptedfs.Prelude.{ℕ, max, Bool, Option, none, some, if◌then◌else◌}

pub data FileType : Type 0 where
  directory regular_file : FileType

pub record FileAttr : Type 0 where
  pub ino : ℕ
  pub size : ℕ
  pub blocks : ℕ
  pub atime : ℕ
  pub mtime : ℕ
  pub ctime : ℕ
  pub crtime : ℕ
  pub kind : FileType
  pub perm : ℕ
  pub nlink : ℕ
  pub uid : ℕ
  pub gid : ℕ
  pub rdev : ℕ
  pub blksize : ℕ
  pub flags : ℕ

pub record SetFileAttr : Type 0 where
  pub size : Option ℕ
  pub atime : Option ℕ
  pub mtime : Option ℕ
  pub ctime : Option ℕ
  pub crtime : Option ℕ
  pub perm : Option ℕ
  pub uid : Option ℕ
  pub gid : Option ℕ
  pub rdev : Option ℕ
  pub flags : Option ℕ

-- `SetFileAttr::default`.
abbrev pub nothing_set : SetFileAttr
nothing_set = record {
  size = none;
  atime = none;
  mtime = none;
  ctime = none;
  crtime = none;
  perm = none;
  uid = none;
  gid = none;
  rdev = none;
  flags = none;
}

abbrev pub with_size : ℕ → SetFileAttr → SetFileAttr
with_size x s = record s { size = some x }

abbrev pub with_atime : ℕ → SetFileAttr → SetFileAttr
with_atime x s = record s { atime = some x }

abbrev pub with_mtime : ℕ → SetFileAttr → SetFileAttr
with_mtime x s = record s { mtime = some x }

abbrev pub with_ctime : ℕ → SetFileAttr → SetFileAttr
with_ctime x s = record s { ctime = some x }

abbrev pub with_crtime : ℕ → SetFileAttr → SetFileAttr
with_crtime x s = record s { crtime = some x }

abbrev pub with_perm : ℕ → SetFileAttr → SetFileAttr
with_perm x s = record s { perm = some x }

abbrev pub with_uid : ℕ → SetFileAttr → SetFileAttr
with_uid x s = record s { uid = some x }

abbrev pub with_gid : ℕ → SetFileAttr → SetFileAttr
with_gid x s = record s { gid = some x }

abbrev pub with_rdev : ℕ → SetFileAttr → SetFileAttr
with_rdev x s = record s { rdev = some x }

-- The code sets `rdev` here too.
abbrev pub with_flags : ℕ → SetFileAttr → SetFileAttr
with_flags x s = record s { rdev = some x }

pub record CreateFileAttr : Type 0 where
  pub kind : FileType
  pub perm : ℕ
  pub uid : ℕ
  pub gid : ℕ
  pub rdev : ℕ
  pub flags : ℕ

abbrev pub links : FileType → ℕ
links directory = 2
links regular_file = 1

-- `FileAttr::from(CreateFileAttr)` at the time `now`.
abbrev pub from_create : ℕ → CreateFileAttr → FileAttr
from_create now value = record {
  ino = 0;
  size = 0;
  blocks = 0;
  atime = now;
  mtime = now;
  ctime = now;
  crtime = now;
  kind = value.kind;
  perm = value.perm;
  nlink = links value.kind;
  uid = value.uid;
  gid = value.gid;
  rdev = value.rdev;
  blksize = 0;
  flags = value.flags;
}

pub record TimesAndSizeFileAttr : Type 0 where
  pub atime : ℕ
  pub mtime : ℕ
  pub ctime : ℕ
  pub crtime : ℕ
  pub size : ℕ

abbrev pub set_times_and_size : TimesAndSizeFileAttr → SetFileAttr
set_times_and_size v = with_size v.size (
    with_crtime v.crtime (with_ctime v.ctime (with_mtime v.mtime (with_atime v.atime nothing_set))))

pub record TimesFileAttr : Type 0 where
  pub atime : ℕ
  pub mtime : ℕ
  pub ctime : ℕ
  pub crtime : ℕ

abbrev pub set_times : TimesFileAttr → SetFileAttr
set_times v =
    with_crtime v.crtime (with_ctime v.ctime (with_mtime v.mtime (with_atime v.atime nothing_set)))

-- A field under `if let Some(x)`: raised to `x`, or replaced by it.
abbrev pub raised : Option ℕ → ℕ → ℕ
raised none old = old
raised (some x) old = max old x

abbrev pub replaced : Option ℕ → ℕ → ℕ
replaced none old = old
replaced (some x) old = x

unfoldable pub merge_attr : SetFileAttr → Bool → FileAttr → FileAttr
merge_attr set overwrite_size attr = record attr {
  size = if overwrite_size then replaced set.size attr.size else raised set.size attr.size;
  atime = raised set.atime attr.atime;
  mtime = raised set.mtime attr.mtime;
  ctime = raised set.ctime attr.ctime;
  crtime = raised set.crtime attr.crtime;
  perm = replaced set.perm attr.perm;
  uid = replaced set.uid attr.uid;
  gid = replaced set.gid attr.gid;
  flags = replaced set.flags attr.flags;
}
