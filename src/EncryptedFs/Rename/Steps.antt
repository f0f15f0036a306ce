-- ===== src/EncryptedFs/Rename/Steps.antt =====
-- The steps of `rename`.
use encryptedfs.Prelude.{
  ℕ, ◌≡◌, refl, subst, ◌⊎◌, inl, inr, true, false, Option, none, some, List, arith, Option-cases,
  length, ok, ◌&&◌, ◌==◌, if◌then◌else◌, ◌+◌, ap, ◌∙◌, Bool, Bool-cases, Result,
}
use encryptedfs.Prelude.Assoc.{Assoc, lookup, contains, lookup-insert, insert}
use encryptedfs.Prelude.Dict
use encryptedfs.Prelude.Dict.{same, same→eq, same_refl}
use encryptedfs.EncryptedFs.Attr.{FileAttr, SetFileAttr, regular_file, FileType, directory}
use encryptedfs.EncryptedFs.Inodes.{set_attr, Inodes}
use encryptedfs.EncryptedFs.Inodes.Named.{merged}
use encryptedfs.EncryptedFs.Inodes.Synced.{after_read, updated}
use encryptedfs.EncryptedFs.Names.{Names, parent_dir, IsNames}
use encryptedfs.EncryptedFs.Tree.{exists, HashEntry, Dir, Content, Fs, dir, DirectoryEntry}
use encryptedfs.EncryptedFs.Entries.Run.{
  after_look, miss_run, dir-exists, remove_run, there_run, insert_run, after_insert,
}
use encryptedfs.EncryptedFs.Nodes.Removal.{
  own_entries, find_entry, look-SameDisk, len_run, SameDisk,
}
use encryptedfs.EncryptedFs.Rename.{check_target, remove_target, link_parent}
use encryptedfs.EncryptedFs.Valid.{Ordinary, IsFs, Holds}
use encryptedfs.EncryptedFs.Valid.Touch.{after_set, set_attr_run, after_set-IsFs}
use encryptedfs.EncryptedFs.Entries.Valid.{drop_entry, put_entry}
use encryptedfs.EncryptedFs.Valid.Entry.{dropped-IsTree, parent_link-IsTree}
use encryptedfs.EncryptedFs.Valid.Namespace.{entry_at, entry_at-drop, entry_at-put}
use encryptedfs.EncryptedFs.{FsError}
use encryptedfs.EncryptedFs.Entries.{insert_directory_entry}
use encryptedfs.EncryptedFs.Nodes.{is_directory}

-- Setting attributes of an inode that is there: all inodes stay.
pub touch :
    (now ino : ℕ) (set : SetFileAttr) (s : Fs)
    → IsFs s
    → exists ino s ≡ true
    → (i : Inodes) × (set_attr now ino set s.inodes ≡ (ok tt, i))
      × IsFs (record s { inodes = i })
      × ((j : ℕ) → contains j i.storage ≡ exists j s)
touch now ino set s v here = elim (Option-cases (lookup ino s.inodes.storage)) [
  | inl z ↦ absurd (ground (arith, z, here))
  | inr (a, z) ↦ (
    after_set now ino set a s.inodes,
    set_attr_run now ino set s a v z,
    after_set-IsFs now ino set s a v z,
    λ j.
        (let b : FileAttr = updated now set false (merged ino s.inodes a) in
          ground (arith, z, lookup-insert ino j b s.inodes.storage)),
  )
]

-- What a name may stand for that `rename` is to give to another node: nothing, a file, or a directory
-- with no entries but its own.
abbrev pub Replaceable : Assoc Content → Option HashEntry → Type 0
Replaceable contents none = Unit
Replaceable contents (some t) =
    (t.kind ≡ regular_file)
    ⊎ ((e : Dir) × (lookup t.ino contents ≡ some (dir e)) × (length e.ls ≡ own_entries t.ino))

pub check_target_run :
    (names : Names) (now q : ℕ) (new_name : List ℕ) (d : Dir) (s : Fs)
    → IsFs s
    → lookup q s.contents ≡ some (dir d)
    → Ordinary (names.hash new_name)
    → Replaceable s.contents (Dict.lookup (names.hash new_name) d.hash)
    → (i : Inodes) × (check_target names now q new_name s ≡ (ok tt, record s { inodes = i }))
      × SameDisk s (record s { inodes = i })
unfolding check_target
check_target_run names now q new_name d s v at o fits =
    elim (Option-cases (Dict.lookup (names.hash new_name) d.hash)) [
      | inl z ↦ (
        s.inodes,
        ground (arith, miss_run names q d s at (dir-exists q s v at).2 new_name z),
        record { valid = v; storage = refl; contents = refl },
      )
      | inr (t, z) ↦
          (let (a, stored, kind) = v.entries q (names.hash new_name) t (d, at, z, o) in
            let named : a.ino ≡ t.ino = v.named t.ino a stored in
            let find = find_entry names now q new_name d t s v at z a stored in
            (
              after_read t.ino a s.inodes,
              elim (subst (Replaceable s.contents) z fits) [
                | inl file_kind ↦ ground (arith, find, kind, file_kind)
                | inr (e, there, empty) ↦ ground (
                  arith,
                  find,
                  named,
                  empty,
                  len_run names now q new_name d t s v at z t.ino e (after_look t.ino a s) there
                      (ground (arith, empty)) (ground (arith, empty)),
                )
              ],
              look-SameDisk names now q new_name d t s v at z a stored,
            ))
    ]

-- The target's entry goes, if there is one; every other entry stays, and all inodes.
pub remove_target_run :
    (names : Names) (now q : ℕ) (new_name n : List ℕ) (d : Dir) (s : Fs)
    → IsFs s
    → lookup q s.contents ≡ some (dir d)
    → Dict.lookup n d.ls ≡ none
    → let k = names.hash new_name in
      (m : Assoc Content) × (e : Dir) × (remove_target names now q new_name s
        ≡ (ok tt, record s { contents = m }))
      × IsFs (record s { contents = m })
      × (lookup q m ≡ some (dir e))
      × (Dict.lookup n e.ls ≡ none)
      × ((p : ℕ) (j : List ℕ)
          → entry_at m p j ≡ (if (q == p) && same k j then none else entry_at s.contents p j))
unfolding remove_target
remove_target_run names now q new_name n d s v at new_ls =
    let k : List ℕ = names.hash new_name in
    let there = there_run names q d s at (dir-exists q s v at).2 new_name in
    elim (Option-cases (Dict.lookup k d.hash)) [
      | inl z ↦ (
        s.contents,
        d,
        ground (arith, there, z),
        v,
        at,
        new_ls,
        λ p j. ground (arith, at, z, Dict.same→eq k j),
      )
      | inr (t, z) ↦ (
        insert q (dir (drop_entry d k t)) s.contents,
        drop_entry d k t,
        ground (arith, there, z, remove_run names q d s at new_name t (v.dirs q d at) z),
        dropped-IsTree v q d at k t z,
        ground (arith, lookup-insert q q (dir (drop_entry d k t)) s.contents),
        ground (arith, new_ls, Dict.lookup-remove t.name n d.ls (v.dirs q d at).ls_distinct),
        entry_at-drop s.contents q d at (v.dirs q d at) k t,
      )
    ]

relinked :
    (names : Names) (ino q : ℕ) (e : Dir) (s : Fs)
    → IsNames names
    → lookup ino s.contents ≡ some (dir e)
    → insert_directory_entry names ino (record { ino = q; name = parent_dir; kind = directory }) s
      ≡ (
        ok tt,
        after_insert ino e parent_dir (record { ino = q; kind = directory; name = parent_dir }) s,
      )
relinked names ino q e s laws at =
    let entry : DirectoryEntry = record { ino = q; name = parent_dir; kind = directory } in
    let link : HashEntry = record { ino = q; kind = directory; name = parent_dir } in
    let done : List ℕ → Result FsError (Unit {0}) × Fs =
      λ k. (ok tt, after_insert ino e k link s) in
    insert_run names ino e s at entry parent_dir (laws.encrypt_parent s.encryptions)
    ∙ ap done laws.hash_parent

Holds-directory :
    (κ : FileType) (o : Option Content)
    → is_directory κ ≡ true
    → Holds κ o
    → (d : Dir) × (o ≡ some (dir d))
Holds-directory directory o z h = h
Holds-directory regular_file o z h = absurd (ground (arith, z))

not_parent :
    {A : Type 0} (x y : A) (b : Bool) (j : List ℕ)
    → Ordinary j
    → (if b && same parent_dir j then x else y) ≡ y
not_parent x y b j o = elim (Bool-cases (same parent_dir j)) [
  | inl z ↦ absurd (ground (arith, o.1, same→eq parent_dir j z))
  | inr z ↦ ground (arith, z)
]

-- A directory's link to its parent is set anew; every ordinary entry stays, and all inodes.
pub link_parent_run :
    (names : Names) (now : ℕ) (a : FileAttr) (q : ℕ) (s : Fs)
    → IsNames names
    → IsFs s
    → lookup a.ino s.inodes.storage ≡ some a
    → (m : Assoc Content) × (c : ℕ) × (link_parent names now a q s
        ≡ (ok tt, record s { contents = m; encryptions = c }))
      × IsFs (record s { contents = m; encryptions = c })
      × ((p : ℕ) (j : List ℕ) → Ordinary j → entry_at m p j ≡ entry_at s.contents p j)
unfolding link_parent
link_parent_run names now a q s laws v stored = elim (Bool-cases (is_directory a.kind)) [
  | inr z ↦ (s.contents, s.encryptions, rw z refl, v, λ p j o. refl)
  | inl z ↦
      (let (e, at) = Holds-directory a.kind (lookup a.ino s.contents) z (v.kinds a.ino a stored) in
        let link : HashEntry = record { ino = q; kind = directory; name = parent_dir } in
        (
          insert a.ino (dir (put_entry e parent_dir link)) s.contents,
          s.encryptions + 1,
          rw z (relinked names a.ino q e s laws at),
          parent_link-IsTree v a.ino e at link refl,
          λ p j o.
              (entry_at-put s.contents a.ino e at parent_dir link p j
                ∙ not_parent (some link) (entry_at s.contents p j) (a.ino == p) j o),
        ))
]
