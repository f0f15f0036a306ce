-- ===== src/EncryptedFs/Nodes/Contents.antt =====
-- The contents of a new node.
use encryptedfs.Prelude.{ℕ, ◌≡◌, refl, ap, ◌∙◌, none, some, List, [], arith, Result, ok}
use encryptedfs.Prelude.Assoc.{lookup, insert, lookup-insert}
use encryptedfs.Prelude.Dict
use encryptedfs.EncryptedFs.{FsError}
use encryptedfs.EncryptedFs.Attr.{FileType, directory, regular_file}
use encryptedfs.EncryptedFs.Names.{this_dir, parent_dir, Names, IsNames}
use encryptedfs.EncryptedFs.Tree.{HashEntry, Dir, Content, Fs, file, dir, DirectoryEntry}
use encryptedfs.EncryptedFs.Entries.{insert_directory_entry}
use encryptedfs.EncryptedFs.Entries.Valid.{
  empty-IsDir, put_entry, put_entry-IsDir, new-HasPlace, parent-HasPlace, IsDir,
}
use encryptedfs.EncryptedFs.Entries.Run.{after_insert, insert_run}
use encryptedfs.EncryptedFs.Nodes.{
  create_contents, create_contents_dir, create_dir, create_contents_file,
}
use encryptedfs.EncryptedFs.Valid.{Ordinary}

abbrev pub this_entry : ℕ → HashEntry
this_entry ino = record { ino = ino; kind = directory; name = this_dir }

abbrev pub parent_entry : ℕ → HashEntry
parent_entry parent = record { ino = parent; kind = directory; name = parent_dir }

abbrev pub no_entries : Dir
no_entries = record { ls = []; hash = [] }

abbrev pub self_linked : ℕ → Dir
self_linked ino = put_entry no_entries this_dir (this_entry ino)

-- The folders of a new directory.
abbrev pub new_dir : ℕ → ℕ → Dir
new_dir ino parent = put_entry (self_linked ino) parent_dir (parent_entry parent)

abbrev pub new_contents : FileType → ℕ → ℕ → Content
new_contents regular_file ino parent = file []
new_contents directory ino parent = dir (new_dir ino parent)

-- How many names are encrypted for the contents.
abbrev pub own_names : FileType → ℕ
own_names regular_file = 0
own_names directory = 2

abbrev pub after_contents : FileType → ℕ → ℕ → Fs → Fs
after_contents regular_file ino parent s = record s { contents = insert ino (file []) s.contents }
after_contents directory ino parent s =
    let s0 : Fs = record s { contents = insert ino (dir no_entries) s.contents } in
    after_insert ino (self_linked ino) parent_dir (parent_entry parent)
      (after_insert ino no_entries this_dir (this_entry ino) s0)

pub new_dir-IsDir : (ino parent : ℕ) → IsDir (new_dir ino parent)
new_dir-IsDir ino parent =
    let linked : IsDir (self_linked ino) =
      put_entry-IsDir no_entries this_dir (this_entry ino) empty-IsDir
        (new-HasPlace no_entries this_dir this_dir empty-IsDir refl refl refl) in
    put_entry-IsDir (self_linked ino) parent_dir (parent_entry parent) linked
      (parent-HasPlace (self_linked ino) linked)

-- Its entries are its own links.
pub new_dir-bare :
    (ino parent : ℕ) (k : List ℕ) (h : HashEntry)
    → Dict.lookup k (new_dir ino parent).hash ≡ some h
    → ¬ Ordinary k
new_dir-bare ino parent k h e (o, o') =
    absurd (ground (arith, e, o, o', Dict.same→eq this_dir k, Dict.same→eq parent_dir k))

-- Only the contents of the node are new.
pub after_contents-lookup :
    (kind : FileType) (ino parent j : ℕ) (s : Fs)
    → lookup j (insert ino (new_contents kind ino parent) s.contents)
      ≡ lookup j (after_contents kind ino parent s).contents
after_contents-lookup regular_file ino parent j s = refl
after_contents-lookup directory ino parent j s =
    let m0 = insert ino (dir no_entries) s.contents in
    let m1 = insert ino (dir (self_linked ino)) m0 in
    ground (
      arith,
      lookup-insert ino j (dir no_entries) s.contents,
      lookup-insert ino j (dir (self_linked ino)) m0,
      lookup-insert ino j (dir (new_dir ino parent)) m1,
      lookup-insert ino j (dir (new_dir ino parent)) s.contents,
    )

module _ (names : Names) (now ino parent : ℕ) (s : Fs) (laws : IsNames names)
    (free : lookup ino s.contents ≡ none) where
  abbrev pub made : Fs
  made = record s { contents = insert ino (dir no_entries) s.contents }

  abbrev pub linked : Fs
  linked = after_insert ino no_entries this_dir (this_entry ino) made

  pub link_this :
      insert_directory_entry names ino
        (record { ino = ino; name = this_dir; kind = directory })
        made
      ≡ (ok tt, linked)
  link_this =
      let entry : DirectoryEntry = record { ino = ino; name = this_dir; kind = directory } in
      let done : List ℕ → Result FsError (Unit {0}) × Fs =
        λ k. (ok tt, after_insert ino no_entries k (this_entry ino) made) in
      insert_run names ino no_entries made
        (ground (arith, lookup-insert ino ino (dir no_entries) s.contents)) entry this_dir
        (laws.encrypt_this s.encryptions)
      ∙ ap done laws.hash_this

  link_parent :
      insert_directory_entry names ino
        (record { ino = parent; name = parent_dir; kind = directory })
        linked
      ≡ (ok tt, after_contents directory ino parent s)
  link_parent =
      let entry : DirectoryEntry = record { ino = parent; name = parent_dir; kind = directory } in
      let done : List ℕ → Result FsError (Unit {0}) × Fs =
        λ k. (ok tt, after_insert ino (self_linked ino) k (parent_entry parent) linked) in
      insert_run names ino (self_linked ino) linked
        (ground (arith, lookup-insert ino ino (dir (self_linked ino)) made.contents)) entry
        parent_dir (laws.encrypt_parent linked.encryptions)
      ∙ ap done laws.hash_parent

  pub folder_run : create_contents_dir ino s ≡ (ok tt, made)
  unfolding create_contents_dir
  folder_run = ground (arith, free)

  create_dir_run :
      create_dir names now ino parent s ≡ (ok tt, after_contents directory ino parent s)
  unfolding create_dir
  create_dir_run = rw folder_run (rw link_this link_parent)

  create_file_run : create_contents_file ino s ≡ (ok tt, after_contents regular_file ino parent s)
  unfolding create_contents_file
  create_file_run = ground (arith, free)

  -- The contents of a node are made where there are none.
  pub create_contents_run :
      (kind : FileType)
      → create_contents names now kind ino parent s ≡ (ok tt, after_contents kind ino parent s)
  unfolding create_contents
  create_contents_run regular_file = create_file_run
  create_contents_run directory = create_dir_run
