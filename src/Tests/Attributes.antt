-- ===== src/Tests/Attributes.antt =====
-- The theorems on attributes at a file with two read handles and a write handle.
use encryptedfs.Prelude.{ℕ, ◌≡◌, refl, true, some, [], ◌∷◌, arith, ◌==◌, if◌then◌else◌, ok}
use encryptedfs.Prelude.Assoc.{Assoc, lookup}
use encryptedfs.EncryptedFs.Attr.{
  nothing_set, with_size, from_create, merge_attr, FileAttr, regular_file,
}
use encryptedfs.EncryptedFs.Inodes.{
  merge_reads, merge_open_reads, merge_open_write, get_attr, set_attr2, Inodes, ReadHandleContext,
}
use encryptedfs.EncryptedFs.Inodes.Named.{merged}
use encryptedfs.EncryptedFs.Inodes.Synced.{updated}
use encryptedfs.EncryptedFs.Inodes.Coherent.{IsCoherent, get_attr_lem, set_attr2_lem}

abbrev pub file_attr : FileAttr
file_attr =
    record (from_create 10
      (record { kind = regular_file; perm = 420; uid = 1; gid = 1; rdev = 0; flags = 0 })) {
        ino = 7;
        size = 100;
      }

abbrev pub reads : Assoc ReadHandleContext
reads =
    (3, record { ino = 7; attr = record { atime = 12; mtime = 10; ctime = 10; crtime = 10 } })
    ∷ (4, record { ino = 7; attr = record { atime = 15; mtime = 9; ctime = 10; crtime = 10 } })
    ∷ []

abbrev pub inodes : Inodes
inodes = record {
  storage = (7, file_attr) ∷ [];
  attr_cache = [];
  opened_files_for_read = (7, 3 ∷ 4 ∷ []) ∷ [];
  read_handles = reads;
  opened_files_for_write = (7, 5) ∷ [];
  write_handles =
      (
        5,
        record {
          ino = 7;
          attr = record { atime = 11; mtime = 14; ctime = 14; crtime = 10; size = 120 };
        },
      )
      ∷ [];
}

inodes-IsCoherent : IsCoherent inodes
inodes-IsCoherent = record {
  cached = λ ino a e. absurd (ground (arith, e));
  named = λ ino a e. ground (arith, e);
}

get_attr_lem_example :
    let (r, s) = get_attr 7 inodes in
    (r ≡ ok (record file_attr { size = 120; atime = 15; mtime = 14; ctime = 14 }))
    × (s.storage ≡ (7, file_attr) ∷ [])
    × IsCoherent s
unfolding merge_open_write merge_open_reads merge_reads merge_attr
get_attr_lem_example = get_attr_lem 7 file_attr inodes inodes-IsCoherent refl

set_attr2_lem_example :
    let (r, s) = set_attr2 50 7 (with_size 30 nothing_set) true inodes in
    (r ≡ ok tt)
    × ((j : ℕ)
        → lookup j s.storage ≡ (
            if 7 == j
            then some (updated 50 (with_size 30 nothing_set) true (merged 7 inodes file_attr))
            else lookup j inodes.storage))
    × IsCoherent s
set_attr2_lem_example =
    set_attr2_lem 50 7 (with_size 30 nothing_set) true file_attr inodes inodes-IsCoherent refl
