-- ===== src/EncryptedFs/Rename/Whole.antt =====
-- `rename`, all of it.
use encryptedfs.Prelude.{
  ℕ, ◌^◌, ◌≤◌, ◌<◌, ◌≡◌, refl, sym, ap, ◌∙◌, subst, ◌⊎◌, inl, inr, true, false, ◌&&◌, none, some,
  List, arith, ◌==◌, Bool-cases, length, Exec, ◌>>◌, ok, err,
}
use encryptedfs.Prelude.Assoc.{lookup, contains}
use encryptedfs.Prelude.Dict
use encryptedfs.Prelude.Dict.{Dict, same, same_refl, same→eq}
use encryptedfs.EncryptedFs.{FsError, not_empty}
use encryptedfs.EncryptedFs.Attr.{nothing_set, with_atime, with_ctime, links}
use encryptedfs.EncryptedFs.Inodes.{set_attr}
use encryptedfs.EncryptedFs.Names.{parent_dir, Names, IsNames}
use encryptedfs.EncryptedFs.Tree.{on_inodes, exists, HashEntry, Dir, Fs, dir}
use encryptedfs.EncryptedFs.Entries.Run.{after_look, there_run, dir-exists}
use encryptedfs.EncryptedFs.Nodes.{set_now}
use encryptedfs.EncryptedFs.Nodes.Removal.{own_entries, find_entry, look-SameDisk, SameDisk}
use encryptedfs.EncryptedFs.Rename.{move_entry, rename}
use encryptedfs.EncryptedFs.Rename.Steps.{Replaceable, check_target_run}
use encryptedfs.EncryptedFs.Valid.{Ordinary, IsFs}
use encryptedfs.EncryptedFs.Rename.Move.{same_place, touch_all, relink_run, IsMoved}
use encryptedfs.EncryptedFs.Rename.Target.{Full, Replaceable-or_Full, check_target-Full}

module _ (names : Names) (laws : IsNames names) (now p q : ℕ) (name new_name n : List ℕ)
    (dp dq : Dir) (h : HashEntry) (s : Fs) (v : IsFs s) (at_p : lookup p s.contents ≡ some (dir dp))
    (at_q : lookup q s.contents ≡ some (dir dq))
    (found : Dict.lookup (names.hash name) dp.hash ≡ some h) (o : Ordinary (names.hash name))
    (o' : Ordinary (names.hash new_name)) where
  -- Past its guards.
  guards :
      same_place p (names.hash name) q (names.hash new_name) ≡ false
      → exists p s ≡ true
      → exists q s ≡ true
      → rename names now p name q new_name s ≡ move_entry names now p name q new_name s
  unfolding rename
  guards apart has_p has_q =
      let another : ((p == q) && same name new_name) ≡ false =
        elim (Bool-cases (same name new_name)) [
          | inl z ↦
              (let e = ap names.hash (same→eq name new_name z) in
                ground (arith, apart, same_refl (names.hash name), ap (same (names.hash name)) e))
          | inr z ↦ ground (arith, z)
        ] in
      ground
        (arith, has_p, has_q, at_p, at_q, there_run names p dp s at_p has_p name, found, another)

  -- To a place that may be given.
  rename_free :
      same_place p (names.hash name) q (names.hash new_name) ≡ false
      → Replaceable s.contents (Dict.lookup (names.hash new_name) dq.hash)
      → Dict.lookup n dq.ls ≡ none
      → same n parent_dir ≡ false
      → names.encrypt s.encryptions new_name ≡ ok n
      → let (r, s') = rename names now p name q new_name s in
        (r ≡ ok tt) × IsMoved p (names.hash name) q (names.hash new_name) n h s s'
  unfolding move_entry
  rename_free apart fits new_ls plain encrypted =
      let (pa, p_stored, has_p) = dir-exists p s v at_p in
      let (qa, q_stored, has_q) = dir-exists q s v at_q in
      let (a, stored, kind) = v.entries p (names.hash name) h (dp, at_p, found, o) in
      let there = there_run names p dp s at_p has_p name in
      let (i1, check, disk1) = check_target_run names now q new_name dq s v at_q o' fits in
      let s1 : Fs = record s { inodes = i1 } in
      let stored1 : lookup h.ino i1.storage ≡ some a = ap (lookup h.ino) disk1.storage ∙ stored in
      let find = find_entry names now p name dp h s1 disk1.valid at_p found a stored1 in
      let disk2 = look-SameDisk names now p name dp h s1 disk1.valid at_p found a stored1 in
      let s2 : Fs = after_look h.ino a s1 in
      let same2 : s2.inodes.storage ≡ s.inodes.storage = disk2.storage ∙ disk1.storage in
      let stored2 : lookup h.ino s2.inodes.storage ≡ some a = ap (lookup h.ino) same2 ∙ stored in
      let named : a.ino ≡ h.ino = v.named h.ino a stored in
      let (m, c, links, v3, entries3) =
        relink_run names laws now p q name new_name n dp dq h s2 disk2.valid at_p at_q found o o'
          new_ls plain encrypted a stored2 named kind in
      let s3 : Fs = record s2 { contents = m; encryptions = c } in
      let last : Exec FsError Fs (Unit {0}) = (do
        on_inodes (set_attr now p (set_now now))
        on_inodes (set_attr now q (set_now now))
        on_inodes (set_attr now a.ino (with_atime now (with_ctime now nothing_set)))) in
      let all3 : (r : ℕ) → exists r s3 ≡ exists r s = λ r. ap (contains r) same2 in
      let (i4, times, v4, all4) =
        touch_all now p q a.ino s3 v3 (all3 p ∙ has_p) (all3 q ∙ has_q)
          (all3 a.ino ∙ ground (arith, named, stored)) in
      let s4 : Fs = record s3 { inodes = i4 } in
      let all : rename names now p name q new_name s ≡ (ok tt, s4) =
        guards apart has_p has_q ∙ rw check (rw find (links last ∙ times)) in
      subst (λ x. (x.0 ≡ ok tt) × IsMoved p (names.hash name) q (names.hash new_name) n h s x.1)
        (sym all) (refl, record { valid = v4; entries = entries3; nodes = λ r. all4 r ∙ all3 r })

  -- To a place that is that of a directory with entries.
  rename-Full :
      same_place p (names.hash name) q (names.hash new_name) ≡ false
      → Full s.contents (Dict.lookup (names.hash new_name) dq.hash)
      → (s' : Fs) × (rename names now p name q new_name s ≡ (err not_empty, s')) × SameDisk s s'
  unfolding move_entry
  rename-Full apart full =
      let (pa, p_stored, has_p) = dir-exists p s v at_p in
      let (qa, q_stored, has_q) = dir-exists q s v at_q in
      let (i, check, disk) = check_target-Full names now q new_name dq s v at_q o' full in
      (record s { inodes = i }, guards apart has_p has_q ∙ rw check refl, disk)

  -- From a valid state, `rename` of an ordinary name to another ordinary name, in the same directory or
  -- in another, succeeds if nothing stands there, or a file, or a directory with no entries but its
  -- own: the new name stands for what the old one stood for, the old one for nothing, every other
  -- ordinary name for what it did, no inode is gone, also not that of a node that stood at the new
  -- place, and the state is valid. If a directory with entries stands there, it fails with `NotEmpty`;
  -- nothing changes on disk, and the state is valid. The new name can be encrypted, to a text that is
  -- new in the folder and not the link to the parent, the names of a directory's own links stay as
  -- they are, and a directory at the new place lists as many entries as it has of its own at least,
  -- and fewer than 2^64.
  pub rename_lem :
      same_place p (names.hash name) q (names.hash new_name) ≡ false
      → ((t : HashEntry) (e : Dir)
          → Dict.lookup (names.hash new_name) dq.hash ≡ some t
          → lookup t.ino s.contents ≡ some (dir e)
          → (own_entries t.ino ≤ length e.ls) × (length e.ls < 2 ^ 64))
      → Dict.lookup n dq.ls ≡ none
      → same n parent_dir ≡ false
      → names.encrypt s.encryptions new_name ≡ ok n
      → let (r, s') = rename names now p name q new_name s in
        let target = Dict.lookup (names.hash new_name) dq.hash in
        (Replaceable s.contents target
          × (r ≡ ok tt)
          × IsMoved p (names.hash name) q (names.hash new_name) n h s s')
        ⊎ (Full s.contents target × (r ≡ err not_empty) × SameDisk s s')
  rename_lem apart counts new_ls plain encrypted =
      let target = Dict.lookup (names.hash new_name) dq.hash in
      elim (Replaceable-or_Full q dq s v at_q (names.hash new_name) o' counts) [
        | inl fits ↦
            (let (r, moved) = rename_free apart fits new_ls plain encrypted in inl (fits, r, moved))
        | inr full ↦
            (let (s', run, disk) = rename-Full apart full in
              inr (full, ap (λ x. x.0) run, subst (λ x. SameDisk s x.1) (sym run) disk))
      ]
