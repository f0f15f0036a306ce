-- ===== src/Mount/Handlers.antt =====
-- src/mount/linux.rs: the calls of FUSE that change names or attributes. A reply is the attributes.
use encryptedfs.Prelude.{
  ℕ, ◌+◌, ◌%◌, ◌^◌, Bool, true, false, not, ◌&&◌, ◌||◌, Option, none, some, List, [], ◌∷◌, ◌==◌,
  if◌then◌else◌, Exec, pure, raise, ◌>>=◌, ◌>>◌, raise_if, Result, ok, err,
}
use encryptedfs.EncryptedFs.{FsError, not_empty}
use encryptedfs.EncryptedFs.Attr.{
  nothing_set, with_atime, with_perm, FileAttr, SetFileAttr, CreateFileAttr, directory,
}
use encryptedfs.EncryptedFs.Inodes.{get_attr, set_attr}
use encryptedfs.EncryptedFs.Names.{Names}
use encryptedfs.EncryptedFs.Tree.{Fs, on_inodes}
use encryptedfs.EncryptedFs.Entries.{find_by_name}
use encryptedfs.EncryptedFs.Nodes.{create, remove_dir, remove_file, is_directory}
use encryptedfs.EncryptedFs.Rename
use encryptedfs.Mount.{
  clear, s_isuid, s_isgid, s_isvtx, w_ok, has, may, sticky, clear_suid_sgid, creation_gid,
  creation_mode, Errno, Request, enoent, eacces, eperm, eio, enotdir, eisdir, enotempty,
}

abbrev pub answer : {A : Type 0} → (FsError → Errno) → Result FsError A → Result Errno A
answer f (ok a) = ok a
answer f (err x) = err (f x)

-- A call of the file system, its errors as the given ones.
abbrev pub call : {A : Type 0} → (FsError → Errno) → Exec FsError Fs A → Exec Errno Fs A
call f m s = let (r, s') = m s in (answer f r, s')

-- The node of a name; every failure is `ENOENT`.
abbrev pub named_node : Names → ℕ → List ℕ → Exec Errno Fs FileAttr
named_node names parent name = do
  found ← call (λ x. enoent) (find_by_name names parent name)
  elim found [ none ↦ raise enoent | some attr ↦ pure attr ]

unfoldable pub access : Request → ℕ → ℕ → Exec Errno Fs (Unit {0})
access req inode mask = do
  attr ← call (λ x. enoent) (on_inodes (get_attr inode))
  raise_if (not (may req mask attr)) eacces

module _ (names : Names) (now : ℕ) where
  unfoldable pub mkdir : Bool → List ℕ → Request → ℕ → List ℕ → ℕ → Exec Errno Fs FileAttr
  mkdir suid_support draws req parent name mode = do
    parent_attr ← call (λ x. enoent) (on_inodes (get_attr parent))
    raise_if (not (may req w_ok parent_attr)) eacces
    let mode1 = if req.uid == 0 then mode else clear 32 mode (s_isuid + s_isgid)
    let mode2 = if has parent_attr.perm s_isgid then clear 32 mode1 s_isgid + s_isgid else mode1
    let attr : CreateFileAttr = record {
      kind = directory;
      perm = creation_mode suid_support mode2;
      uid = req.uid;
      gid = creation_gid parent_attr req.gid;
      rdev = 0;
      flags = 0;
    }
    made ← call (λ x. enoent) (create names now draws parent name attr false false)
    pure made.1

  unfoldable pub unlink : Request → ℕ → List ℕ → Exec Errno Fs (Unit {0})
  unlink req parent name = do
    parent_attr ← call (λ x. enoent) (on_inodes (get_attr parent))
    raise_if (not (may req w_ok parent_attr)) eacces
    attr ← named_node names parent name
    raise_if (sticky req parent_attr attr) eacces
    call (λ x. enoent) (remove_file names now parent name)

  -- What `rmdir` answers to a failure.
  abbrev pub rmdir_errno : FsError → Errno
  rmdir_errno not_empty = eisdir
  rmdir_errno x = eio

  unfoldable pub rmdir : Request → ℕ → List ℕ → Exec Errno Fs (Unit {0})
  rmdir req parent name = do
    parent_attr ← call (λ x. enoent) (on_inodes (get_attr parent))
    raise_if (not (may req w_ok parent_attr)) eacces
    attr ← named_node names parent name
    raise_if (not (is_directory attr.kind)) enotdir
    raise_if (sticky req parent_attr attr) eacces
    call rmdir_errno (remove_dir names now parent name)

  -- The sticky bit of the new parent keeps a caller from the node that the new name stands for.
  abbrev pub new_sticky : Request → FileAttr → ℕ → List ℕ → Exec Errno Fs (Unit {0})
  new_sticky req new_parent_attr new_parent new_name s =
      let (found, s') = find_by_name names new_parent new_name s in
      let denied : FileAttr → Bool = λ new_attr.
        not (req.uid == 0)
        && not (req.uid == new_parent_attr.uid)
        && not (req.uid == new_attr.uid) in
      let checked : Result Errno (Unit {0}) × Fs = elim found [
        | err x ↦ (ok tt, s')
        | ok none ↦ (ok tt, s')
        | ok (some new_attr) ↦ raise_if (denied new_attr) eacces s'
      ] in
      if has new_parent_attr.perm s_isvtx then checked else (ok tt, s)

  abbrev pub rename_errno : FsError → Errno
  rename_errno not_empty = enotempty
  rename_errno x = enoent

  unfoldable pub rename : Request → ℕ → List ℕ → ℕ → List ℕ → Exec Errno Fs (Unit {0})
  rename req parent name new_parent new_name = do
    attr ← named_node names parent name
    parent_attr ← call (λ x. enoent) (on_inodes (get_attr parent))
    raise_if (not (may req w_ok parent_attr)) eacces
    raise_if (sticky req parent_attr attr) eacces
    new_parent_attr ← call (λ x. enoent) (on_inodes (get_attr new_parent))
    raise_if (not (may req w_ok new_parent_attr)) eacces
    new_sticky req new_parent_attr new_parent new_name
    let moves = is_directory attr.kind && not (parent == new_parent)
    raise_if (moves && not (may req w_ok attr)) eacces
    call rename_errno (Rename.rename names now parent name new_parent new_name)

-- What `setattr` replies at last.
abbrev pub reply_attr : ℕ → Exec Errno Fs FileAttr
reply_attr inode = call (λ x. enoent) (on_inodes (get_attr inode))

abbrev pub is_member : List ℕ → ℕ → Bool
is_member [] g = false
is_member (x ∷ xs) g = (x == g) || is_member xs g

abbrev pub is_given : Option ℕ → Bool
is_given none = false
is_given (some n) = true

-- `groups` is what /proc tells of a process.
module _ (groups : ℕ → List ℕ) (now : ℕ) where
  -- The part of `setattr` for a mode.
  unfoldable pub chmod : Request → ℕ → FileAttr → ℕ → Exec Errno Fs FileAttr
  chmod req inode attr mode = do
    raise_if (not (req.uid == 0) && not (req.uid == attr.uid)) eperm
    let outside =
        not (req.uid == 0) && not (req.gid == attr.gid) && not (is_member (groups req.pid) attr.gid)
    let perm = (if outside then clear 32 mode s_isgid else mode) % 2 ^ 16
    call (λ x. eio) (on_inodes (set_attr now inode (with_atime now (with_perm perm nothing_set))))
    reply_attr inode

  -- The changes of `setattr` for an owner or a group. The code reads them from a record that it has
  -- just made, which hides the outer one and has neither.
  abbrev pub owner_set : Request → FileAttr → SetFileAttr → SetFileAttr
  owner_set req attr set =
      let executable = has attr.perm (64 + 8 + 1) in
      let perm : ℕ = if executable then clear_suid_sgid attr.perm else attr.perm in
      let perm1 : ℕ = elim set.uid [ none ↦ perm | some uid ↦ clear 16 perm s_isuid ] in
      let perm2 : ℕ = elim set.gid [
        | none ↦ perm1
        | some gid ↦ if req.uid == 0 then perm1 else clear 16 perm1 s_isgid
      ] in
      with_atime now (with_perm perm2 set)

  abbrev pub owner_allowed : Request → FileAttr → SetFileAttr → Bool
  owner_allowed req attr set =
      let group_ok : Bool = elim set.gid [
        | none ↦ true
        | some gid ↦ (req.uid == 0) || is_member (groups req.pid) gid
      ] in
      let owner_ok : Bool = elim set.uid [
        | none ↦ true
        | some uid ↦ (req.uid == 0) || ((uid == attr.uid) && (req.uid == attr.uid))
      ] in
      let only_owner : Bool = elim set.gid [
        | none ↦ true
        | some gid ↦ (req.uid == 0) || (req.uid == attr.uid)
      ] in
      group_ok && owner_ok && only_owner

  unfoldable pub chown : Request → ℕ → FileAttr → Option ℕ → Option ℕ → Exec Errno Fs FileAttr
  chown req inode attr uid gid = do
    let set : SetFileAttr = nothing_set
    raise_if (not (owner_allowed req attr set)) eperm
    call (λ x. eio) (on_inodes (set_attr now inode (owner_set req attr set)))
    reply_attr inode

  -- `setattr` for a mode, an owner or a group; with none of them there is no reply yet, and the code
  -- goes on to the size and the times.
  unfoldable pub setattr_owner :
      Request → ℕ → Option ℕ → Option ℕ → Option ℕ → Exec Errno Fs (Option FileAttr)
  setattr_owner req inode mode uid gid = do
    attr ← reply_attr inode
    let owner = do reply ← chown req inode attr uid gid; pure (some reply)
    let owner_given : Bool = is_given uid || is_given gid
    elim mode [
      | some m ↦ do reply ← chmod req inode attr m; pure (some reply)
      | none ↦ if owner_given then owner else pure none
    ]
