-- ===== src/EncryptedFs/Nodes/Create.antt =====
-- `create`.
use encryptedfs.Prelude.{
  ℕ, ◌+◌, ◌≡◌, Bool, false, not, ◌&&◌, ◌||◌, none, some, List, arith, ◌==◌, ok, refl, ap, ◌∙◌, sym,
  subst,
}
use encryptedfs.Prelude.Assoc.{lookup, lookup-insert, insert}
use encryptedfs.Prelude.Dict
use encryptedfs.Prelude.Dict.{same, same_refl}
use encryptedfs.EncryptedFs.Attr.{from_create, FileType, FileAttr, CreateFileAttr}
use encryptedfs.EncryptedFs.Names.{parent_dir, Names, IsNames}
use encryptedfs.EncryptedFs.Tree.{Dir, Fs, dir, HashEntry}
use encryptedfs.EncryptedFs.Entries.{find_by_name, insert_directory_entry}
use encryptedfs.EncryptedFs.Entries.Valid.{put_entry}
use encryptedfs.EncryptedFs.Entries.Run.{after_insert, insert_run, there_run, find_run, dir-exists}
use encryptedfs.EncryptedFs.Nodes.{
  is_directory, set_now, create_handle, create_node, generate_next_inode, create,
}
use encryptedfs.EncryptedFs.Nodes.Next.{IsFree}
use encryptedfs.EncryptedFs.Nodes.Contents.{new_contents, own_names, create_contents_run}
use encryptedfs.EncryptedFs.Nodes.Made.{
  node_made, with_inode, write_run, inodes-made, node_made-IsFs, node_made-Unlinked, parent_made,
  encryptions-made, lookup-made, apart,
}
use encryptedfs.EncryptedFs.Valid.{Ordinary, IsFs}
use encryptedfs.EncryptedFs.Valid.Entry.{linked-IsTree}
use encryptedfs.EncryptedFs.Valid.Node.{no_contents}
use encryptedfs.EncryptedFs.Valid.Touch.{after_set, set_attr_run, after_set-IsFs}
use encryptedfs.Crypto.Text.{is_dots}
use encryptedfs.EncryptedFs.Inodes.Named.{merged}
use encryptedfs.EncryptedFs.Inodes.Synced.{updated}

-- `s'` is `s` with the new inode `attr`, which `name` stands for in the directory `p`, listed there
-- under `n`: nothing else is new, and only the parent has changed.
pub record IsCreated (names : Names) (p : ℕ) (d : Dir) (name n : List ℕ) (attr : FileAttr)
    (s s' : Fs) : Type 0 where
  pub valid : IsFs s'
  pub fresh : IsFree attr.ino s
  pub found : (find_by_name names p name s').0 ≡ ok (some attr)
  pub contents : lookup attr.ino s'.contents ≡ some (new_contents attr.kind attr.ino p)
  pub parent :
      lookup p s'.contents
      ≡ some (
          dir
            (put_entry d (names.hash name) (record { ino = attr.ino; kind = attr.kind; name = n })))
  pub rest :
      (j : ℕ)
      → (attr.ino == j) ≡ false
      → (p == j) ≡ false
      → (lookup j s'.inodes.storage ≡ lookup j s.inodes.storage)
        × (lookup j s'.contents ≡ lookup j s.contents)

-- Whether `create` is to open the file, too.
abbrev pub opens : FileType → Bool → Bool → Bool
opens kind read write = not (is_directory kind) && (read || write)

module _ (names : Names) (laws : IsNames names) (now p : ℕ) (name n : List ℕ) (d : Dir)
    (create_attr : CreateFileAttr) (ino : ℕ) (s : Fs) (v : IsFs s)
    (at : lookup p s.contents ≡ some (dir d)) (free : IsFree ino s) (o : Ordinary (names.hash name))
    (new_hash : Dict.lookup (names.hash name) d.hash ≡ none) (new_ls : Dict.lookup n d.ls ≡ none)
    (plain : same n parent_dir ≡ false)
    (encrypted : names.encrypt (s.encryptions + own_names create_attr.kind) name ≡ ok n) where
  abbrev pub attr : FileAttr
  attr = record (from_create now create_attr) { ino = ino }

  fresh : lookup ino s.inodes.storage ≡ none
  fresh = ground (arith, free.1)

  abbrev made_s : Fs
  made_s = node_made names laws now p name n d attr s v at fresh

  abbrev entry : HashEntry
  entry = record { ino = ino; kind = create_attr.kind; name = n }

  abbrev linked : Fs
  linked = after_insert p d (names.hash name) entry made_s

  made_parent : lookup p made_s.contents ≡ some (dir d)
  made_parent = parent_made names laws now p name n d attr s v at fresh

  made_stored : lookup ino made_s.inodes.storage ≡ some attr
  made_stored =
      ap (λ i. lookup ino i.storage)
        (inodes-made names laws now p name n d attr s v at fresh create_attr.kind)
      ∙ ground (arith, lookup-insert ino ino attr s.inodes.storage)

  linked-IsFs : IsFs linked
  linked-IsFs =
      linked-IsTree (node_made-IsFs names laws now p name n d attr s v at fresh) p d made_parent
        (names.hash name) entry attr o new_hash new_ls plain made_stored refl
        (node_made-Unlinked names laws now p name n d attr s v at fresh)

  link_run :
      insert_directory_entry names p
        (record { ino = ino; name = name; kind = create_attr.kind })
        made_s
      ≡ (ok tt, linked)
  link_run =
      insert_run names p d made_s made_parent
        (record { ino = ino; name = name; kind = create_attr.kind }) n
        (ap (λ i. names.encrypt i name)
            (encryptions-made names laws now p name n d attr s v at fresh)
          ∙ encrypted)

  linked_parent : lookup p linked.contents ≡ some (dir (put_entry d (names.hash name) entry))
  linked_parent =
      ground (arith, lookup-insert p p (dir (put_entry d (names.hash name) entry)) made_s.contents)

  module _ (pa : FileAttr) (stored : lookup p linked.inodes.storage ≡ some pa) where
    abbrev created : Fs
    created = record linked { inodes = after_set now p (set_now now) pa linked.inodes }

    node_run :
        (read write : Bool)
        → opens create_attr.kind read write ≡ false
        → create_node names now p name create_attr read write ino s ≡ (ok (0, attr), created)
    unfolding create_node create_handle
    node_run read write closed = rw (write_run attr s) (
        rw
          (create_contents_run names now ino p (with_inode attr s) laws (no_contents v ino fresh)
            create_attr.kind)
          (rw link_run
            (rw (set_attr_run now p (set_now now) linked pa linked-IsFs stored) (rw closed refl))))

    created-IsFs : IsFs created
    created-IsFs = after_set-IsFs now p (set_now now) linked pa linked-IsFs stored

    other : (ino == p) ≡ false
    other = apart names laws now p name n d attr s v at fresh

    -- What `set_attr` of the parent leaves of another inode.
    storage-created :
        (j : ℕ)
        → (p == j) ≡ false
        → lookup j created.inodes.storage ≡ lookup j (insert ino attr s.inodes.storage)
    storage-created j z =
        let b : FileAttr = updated now (set_now now) false (merged p linked.inodes pa) in
        ground (arith, z, lookup-insert p j b linked.inodes.storage)
        ∙ ap (λ i. lookup j i.storage)
            (inodes-made names laws now p name n d attr s v at fresh create_attr.kind)

    contents-created :
        (j : ℕ)
        → (p == j) ≡ false
        → lookup j created.contents
          ≡ lookup j (insert ino (new_contents create_attr.kind ino p) s.contents)
    contents-created j z =
        ground
          (arith, z, lookup-insert p j (dir (put_entry d (names.hash name) entry)) made_s.contents)
        ∙ sym (lookup-made names laws now p name n d attr s v at fresh j)

    found_created : (find_by_name names p name created).0 ≡ ok (some attr)
    found_created =
        let here : lookup ino created.inodes.storage ≡ some attr =
          storage-created ino (ground (arith, other))
          ∙ ground (arith, lookup-insert ino ino attr s.inodes.storage) in
        ap (λ x. x.0)
          (find_run names p (put_entry d (names.hash name) entry) created linked_parent
            (dir-exists p created created-IsFs linked_parent).2 name entry attr
            (ground (
              arith,
              Dict.lookup-insert (names.hash name) (names.hash name) entry d.hash,
              same_refl (names.hash name),
            ))
            (λ b hit. created-IsFs.synced ino attr b hit here) here)

    created_lem : IsCreated names p d name n attr s created
    created_lem = record {
      valid = created-IsFs;
      fresh = free;
      found = found_created;
      contents =
          contents-created ino (ground (arith, other))
          ∙ ground (arith, lookup-insert ino ino (new_contents create_attr.kind ino p) s.contents);
      parent = linked_parent;
      rest = λ j not_ino not_p. (
        storage-created j not_p
            ∙ ground (arith, not_ino, lookup-insert ino j attr s.inodes.storage),
        contents-created j not_p
            ∙ ground (
              arith,
              not_ino,
              lookup-insert ino j (new_contents create_attr.kind ino p) s.contents,
            ),
      );
    }

  -- From a valid state, `create` of a name that is new in the directory, and that is not to be opened
  -- as a file, succeeds with no handle and the attributes of a new inode, whose number is free: the
  -- name is found and stands for it, its contents are an empty file or the folders of a new directory,
  -- the parent's folders have just that entry more, and the state is valid. The numbers drawn have a
  -- free one. The name is not one of the two dots, and its hash is not that of one of the directory's
  -- own links; it can be encrypted, to a text that is new in the folder and not the link to the parent;
  -- and the names of a directory's own links stay as they are.
  pub create_lem :
      (draws : List ℕ) (read write : Bool)
      → is_dots name ≡ false
      → generate_next_inode draws s ≡ some ino
      → opens create_attr.kind read write ≡ false
      → let (r, s') = create names now draws p name create_attr read write s in
        (r ≡ ok (0, attr)) × IsCreated names p d name n attr s s'
  unfolding create
  create_lem draws read write dots drawn closed =
      let (pa, stored, here) = dir-exists p linked linked-IsFs linked_parent in
      let run = node_run pa stored read write closed in
      let (qa, q_stored, there) = dir-exists p s v at in
      let all : create names now draws p name create_attr read write s
          ≡ (ok (0, attr), created pa stored) =
        ground (arith, dots, drawn, there, there_run names p d s at there name, new_hash, run) in
      subst (λ x. (x.0 ≡ ok (0, attr)) × IsCreated names p d name n attr s x.1) (sym all)
        (refl, created_lem pa stored)
