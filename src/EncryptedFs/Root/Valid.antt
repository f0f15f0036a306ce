-- ===== src/EncryptedFs/Root/Valid.antt =====
-- The file system begins in a valid state.
use encryptedfs.Prelude.{
  ℕ, ◌≡◌, refl, ap, ◌∙◌, subst, inl, inr, true, none, some, List, [], arith, Option-cases, Result,
  ok,
}
use encryptedfs.Prelude.Assoc.{lookup, insert, lookup-insert}
use encryptedfs.Prelude.Dict
use encryptedfs.Prelude.Dict.{Dict, same, same_refl, same→eq}
use encryptedfs.EncryptedFs.{FsError}
use encryptedfs.EncryptedFs.Names.{this_dir, Names, IsNames}
use encryptedfs.EncryptedFs.Tree.{root_inode, exists, HashEntry, Dir, Fs, dir}
use encryptedfs.EncryptedFs.Entries.Valid.{empty-IsDir, put_entry-IsDir, new-HasPlace, IsDir}
use encryptedfs.EncryptedFs.Entries.Run.{after_insert}
use encryptedfs.EncryptedFs.Nodes.Contents.{
  this_entry, no_entries, self_linked, link_this, folder_run,
}
use encryptedfs.EncryptedFs.Nodes.Made.{with_inode, write_run}
use encryptedfs.EncryptedFs.Valid.{Ordinary, IsFs}
use encryptedfs.EncryptedFs.Valid.Node.{IsTree-ext, no_contents, new_node-IsTree}
use encryptedfs.EncryptedFs.Root.{root_attr, create_root, ensure_root_exists}

-- What a new data directory holds.
abbrev pub no_files : Fs
no_files = record {
  inodes = record {
    storage = [];
    attr_cache = [];
    opened_files_for_read = [];
    read_handles = [];
    opened_files_for_write = [];
    write_handles = [];
  };
  contents = [];
  current_handle = 1;
  encryptions = 0;
  dir_entries_name_cache = [];
  dir_entries_meta_cache = [];
}

pub no_files-IsFs : IsFs no_files
no_files-IsFs = record {
  named = λ ino a e. absurd (ground (arith, e));
  synced = λ ino a b e e'. absurd (ground (arith, e));
  kinds = λ ino a e. absurd (ground (arith, e));
  owned = λ ino c e. absurd (ground (arith, e));
  dirs = λ p d e. absurd (ground (arith, e));
  entries = λ p k h (d, here, found, o). absurd (ground (arith, here));
  unique = λ p q k j h g (d, here, found, o). absurd (ground (arith, here));
}

abbrev root_dir : Dir
root_dir = self_linked root_inode

root_dir-IsDir : IsDir root_dir
root_dir-IsDir =
    put_entry-IsDir no_entries this_dir (this_entry root_inode) empty-IsDir
      (new-HasPlace no_entries this_dir this_dir empty-IsDir refl refl refl)

root_dir-bare : (k : List ℕ) (h : HashEntry) → Dict.lookup k root_dir.hash ≡ some h → ¬ Ordinary k
root_dir-bare k h e o = absurd (ground (arith, e, o, same→eq this_dir k))

module _ (names : Names) (laws : IsNames names) (now uid gid : ℕ) (s : Fs) (v : IsFs s)
    (fresh : lookup root_inode s.inodes.storage ≡ none) where
  abbrev with_root : Fs
  with_root =
      after_insert root_inode no_entries this_dir (this_entry root_inode)
        (record (with_inode (root_attr now uid gid) s) {
          contents = insert root_inode (dir no_entries) s.contents;
        })

  create_root_run : create_root names now uid gid s ≡ (ok tt, with_root)
  unfolding create_root
  create_root_run = rw (write_run (root_attr now uid gid) s) (
      rw
        (folder_run names now root_inode root_inode (with_inode (root_attr now uid gid) s) laws
          (no_contents v root_inode fresh))
        (link_this names now root_inode root_inode (with_inode (root_attr now uid gid) s) laws
          (no_contents v root_inode fresh)))

  with_root-IsFs : IsFs with_root
  with_root-IsFs =
      IsTree-ext (insert root_inode (dir root_dir) s.contents) with_root.contents
        (λ j. ground (
          arith,
          lookup-insert root_inode j (dir no_entries) s.contents,
          lookup-insert root_inode j (dir root_dir) s.contents,
          lookup-insert root_inode j (dir root_dir) (insert root_inode (dir no_entries) s.contents),
        ))
        (new_node-IsTree v (root_attr now uid gid) (dir root_dir) fresh (root_dir, refl)
          (λ d z. subst IsDir {x = root_dir} (ground (arith, z)) root_dir-IsDir)
          (λ d k h z e.
            root_dir-bare k h
              (ap (λ x. Dict.lookup k x.hash) {x = root_dir} {y = d} (ground (arith, z)) ∙ e)))

-- From a valid state, `ensure_root_exists` succeeds, and the state is valid and has the root; the names
-- of a directory's own links stay as they are.
pub ensure_root_exists_lem :
    (names : Names) (now uid gid : ℕ) (s : Fs)
    → IsNames names
    → IsFs s
    → let (r, s') = ensure_root_exists names now uid gid s in
      (r ≡ ok tt) × IsFs s' × (exists root_inode s' ≡ true)
unfolding ensure_root_exists
ensure_root_exists_lem names now uid gid s laws v =
    let good : Result FsError (Unit {0}) × Fs → Type 0 =
      λ x. (x.0 ≡ ok tt) × IsFs x.1 × (exists root_inode x.1 ≡ true) in
    elim (Option-cases (lookup root_inode s.inodes.storage)) [
      | inr (a, z) ↦
          subst good {x = (ok tt, s)} {y = ensure_root_exists names now uid gid s}
            (ground (arith, z)) (refl, v, ground (arith, z))
      | inl z ↦
          (let s' : Fs = with_root names laws now uid gid s v z in
            let all : (ok tt, s') ≡ ensure_root_exists names now uid gid s =
              ground (arith, z, create_root_run names laws now uid gid s v z) in
            subst good all (
              refl,
              with_root-IsFs names laws now uid gid s v z,
              ground (
                arith,
                lookup-insert root_inode root_inode (root_attr now uid gid) s.inodes.storage,
              ),
            ))
    ]
