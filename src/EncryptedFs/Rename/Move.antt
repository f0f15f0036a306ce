-- ===== src/EncryptedFs/Rename/Move.antt =====
-- `rename` to a name that may be given.
use encryptedfs.Prelude.{
  ℕ, ◌≡◌, refl, sym, ap, ◌∙◌, inl, inr, Bool, true, false, ◌&&◌, none, some, List, arith, ◌==◌,
  if◌then◌else◌, Bool-cases, Exec, ◌>>◌, ok,
}
use encryptedfs.Prelude.Assoc.{Assoc, lookup, contains, lookup-insert}
use encryptedfs.Prelude.Dict
use encryptedfs.Prelude.Dict.{Dict, same, same_refl, same→eq}
use encryptedfs.EncryptedFs.{FsError}
use encryptedfs.EncryptedFs.Attr.{nothing_set, with_atime, with_ctime, FileAttr, SetFileAttr}
use encryptedfs.EncryptedFs.Inodes.{set_attr, Inodes}
use encryptedfs.EncryptedFs.Names.{parent_dir, Names, IsNames}
use encryptedfs.EncryptedFs.Tree.{on_inodes, exists, HashEntry, Dir, Content, Fs, dir}
use encryptedfs.EncryptedFs.Entries.{insert_directory_entry, remove_directory_entry}
use encryptedfs.EncryptedFs.Entries.Valid.{drop_entry}
use encryptedfs.EncryptedFs.Entries.Run.{after_insert, after_drop, insert_run, remove_run}
use encryptedfs.EncryptedFs.Nodes.{set_now}
use encryptedfs.EncryptedFs.Rename.{remove_target, link_parent}
use encryptedfs.EncryptedFs.Rename.Steps.{touch, remove_target_run, link_parent_run}
use encryptedfs.EncryptedFs.Valid.{Ordinary, IsFs, Unlinked}
use encryptedfs.EncryptedFs.Valid.Entry.{linked-IsTree, dropped-IsTree, dropped-Unlinked}
use encryptedfs.EncryptedFs.Valid.Namespace.{
  entry_at, entry_at-dir, entry_at-put, entry_at-drop, entry_at-HasEntry,
}

-- Whether two names of directories are the same name of the same directory.
abbrev pub same_place : ℕ → List ℕ → ℕ → List ℕ → Bool
same_place p k q j = (p == q) && same k j

-- `s'` is `s` with the entry `h`, which stood under the key `k` of the directory `p`, moved to the key
-- `j` of `q`, where it is listed under `n`.
pub record IsMoved (p : ℕ) (k : List ℕ) (q : ℕ) (j n : List ℕ) (h : HashEntry) (s s' : Fs)
    : Type 0 where
  pub valid : IsFs s'
  pub entries :
      (r : ℕ) (i : List ℕ)
      → Ordinary i
      → entry_at s'.contents r i ≡ (
          if same_place q j r i
          then some (record h { name = n })
          else if same_place p k r i
          then none
          else entry_at s.contents r i)
  pub nodes : (r : ℕ) → exists r s' ≡ exists r s

-- The times that `rename` sets at last.
pub touch_all :
    (now p q ino : ℕ) (s : Fs)
    → IsFs s
    → exists p s ≡ true
    → exists q s ≡ true
    → exists ino s ≡ true
    → (i : Inodes) × ((do
      on_inodes (set_attr now p (set_now now))
      on_inodes (set_attr now q (set_now now))
      on_inodes (set_attr now ino (with_atime now (with_ctime now nothing_set))))
          s
        ≡ (ok tt, record s { inodes = i }))
      × IsFs (record s { inodes = i })
      × ((j : ℕ) → contains j i.storage ≡ exists j s)
touch_all now p q ino s v has_p has_q has_ino =
    let (i1, run1, v1, all1) = touch now p (set_now now) s v has_p in
    let s1 : Fs = record s { inodes = i1 } in
    let (i2, run2, v2, all2) = touch now q (set_now now) s1 v1 (all1 q ∙ has_q) in
    let s2 : Fs = record s { inodes = i2 } in
    let set : SetFileAttr = with_atime now (with_ctime now nothing_set) in
    let (i3, run3, v3, all3) = touch now ino set s2 v2 (all2 ino ∙ all1 ino ∙ has_ino) in
    (i3, rw run1 (rw run2 (rw run3 refl)), v3, λ j. all3 j ∙ all2 j ∙ all1 j)

module _ (names : Names) (laws : IsNames names) (now p q : ℕ) (name new_name n : List ℕ)
    (dp dq : Dir) (h : HashEntry) (s : Fs) (v : IsFs s) (at_p : lookup p s.contents ≡ some (dir dp))
    (at_q : lookup q s.contents ≡ some (dir dq))
    (found : Dict.lookup (names.hash name) dp.hash ≡ some h) (o : Ordinary (names.hash name))
    (o' : Ordinary (names.hash new_name)) (new_ls : Dict.lookup n dq.ls ≡ none)
    (plain : same n parent_dir ≡ false)
    (encrypted : names.encrypt s.encryptions new_name ≡ ok n) where
  abbrev dropped : Fs
  dropped = after_drop p dp (names.hash name) h s

  -- The folders of the new parent without the entry, if it was there.
  dropped_target :
      (e : Dir) × (lookup q dropped.contents ≡ some (dir e)) × (Dict.lookup n e.ls ≡ none)
  dropped_target =
      let d' : Dir = drop_entry dp (names.hash name) h in
      let there = lookup-insert p q (dir d') s.contents in
      elim (Bool-cases (p == q)) [
        | inl z ↦ (
          d',
          ground (arith, z, there),
          ground (
            arith,
            z,
            at_p,
            at_q,
            new_ls,
            Dict.lookup-remove h.name n dp.ls (v.dirs p dp at_p).ls_distinct,
          ),
        )
        | inr z ↦ (dq, ground (arith, z, there, at_q), new_ls)
      ]

  -- The four steps that change the entries.
  pub relink_run :
      (a : FileAttr)
      → lookup h.ino s.inodes.storage ≡ some a
      → a.ino ≡ h.ino
      → a.kind ≡ h.kind
      → (m : Assoc Content) × (c : ℕ) × ((next : Exec FsError Fs (Unit {0}))
          → (do
            remove_directory_entry names p name
            remove_target names now q new_name
            insert_directory_entry names q (record { ino = a.ino; name = new_name; kind = a.kind })
            link_parent names now a q
            next)
              s
            ≡ next (record s { contents = m; encryptions = c }))
        × IsFs (record s { contents = m; encryptions = c })
        × ((r : ℕ) (i : List ℕ)
            → Ordinary i
            → entry_at m r i ≡ (
                if same_place q (names.hash new_name) r i
                then some (record h { name = n })
                else if same_place p (names.hash name) r i
                then none
                else entry_at s.contents r i))
  relink_run a stored named kind =
      let (e1, at1, ls1) = dropped_target in
      let run1 = remove_run names p dp s at_p name h (v.dirs p dp at_p) found in
      let v1 : IsFs dropped = dropped-IsTree v p dp at_p (names.hash name) h found in
      let (m2, e2, run2, v2, at2, ls2, entries2) =
        remove_target_run names now q new_name n e1 dropped v1 at1 ls1 in
      let s2 : Fs = record dropped { contents = m2 } in
      let entry : HashEntry = record { ino = a.ino; kind = a.kind; name = n } in
      let hash2 : Dict.lookup (names.hash new_name) e2.hash ≡ none =
        sym (entry_at-dir m2 q e2 at2 (names.hash new_name))
        ∙ entries2 q (names.hash new_name)
        ∙ ground (arith, same_refl (names.hash new_name)) in
      let unlinked : Unlinked a.ino m2 = λ r i g (d, here, hit, oi) same_ino.
        dropped-Unlinked v p dp at_p (names.hash name) h found o r i g
          (entry_at-HasEntry dropped.contents r i g oi
            (ground (arith, entries2 r i, entry_at-dir m2 r d here i, hit)))
          (same_ino ∙ named) in
      let run3 =
        insert_run names q e2 s2 at2 (record { ino = a.ino; name = new_name; kind = a.kind }) n
          encrypted in
      let v3 =
        linked-IsTree v2 q e2 at2 (names.hash new_name) entry a o' hash2 ls2 plain
          (ap (λ x. lookup x s.inodes.storage) named ∙ stored) refl unlinked in
      let s3 : Fs = after_insert q e2 (names.hash new_name) entry s2 in
      let (m4, c4, run4, v4, entries4) =
        link_parent_run names now a q s3 laws v3
          (ap (λ x. lookup x s.inodes.storage) named ∙ stored) in
      (
        m4,
        c4,
        λ next. rw run1 (rw run2 (rw run3 (rw run4 refl))),
        v4,
        λ r i oi. ground (
          arith,
          named,
          kind,
          entries4 r i oi,
          entry_at-put m2 q e2 at2 (names.hash new_name) entry r i,
          entries2 r i,
          entry_at-drop s.contents p dp at_p (v.dirs p dp at_p) (names.hash name) h r i,
        ),
      )
