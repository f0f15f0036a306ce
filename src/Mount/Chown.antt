-- ===== src/Mount/Chown.antt =====
-- `setattr` for an owner or a group.
use encryptedfs.Prelude.{
  ℕ, ◌≡◌, refl, sym, ap, ◌∙◌, subst, false, Option, none, some, List, arith, Result, ok, true, ◌||◌,
}
use encryptedfs.Prelude.Assoc.{lookup, lookup-insert}
use encryptedfs.Mount.{Errno, Request}
use encryptedfs.Mount.Handlers.{owner_set, chown, setattr_owner, is_given}
use encryptedfs.EncryptedFs.Attr.{nothing_set, merge_attr, FileAttr, SetFileAttr}
use encryptedfs.EncryptedFs.Inodes.Named.{merged, uid-merged, gid-merged}
use encryptedfs.EncryptedFs.Inodes.Synced.{get_attr_run, storage-after_read, updated}
use encryptedfs.EncryptedFs.Tree.{Fs}
use encryptedfs.EncryptedFs.Entries.Run.{after_look}
use encryptedfs.EncryptedFs.Valid.{IsFs}
use encryptedfs.EncryptedFs.Valid.Touch.{after_set, after_read-IsFs, set_attr_run, after_set-IsFs}

module _ (groups : ℕ → List ℕ) (now : ℕ) (req : Request) (ino : ℕ) (s : Fs) (v : IsFs s)
    (a : FileAttr) (stored : lookup ino s.inodes.storage ≡ some a) (uid gid : Option ℕ) where
  abbrev attr : FileAttr
  attr = merged ino s.inodes a

  abbrev looked : Fs
  looked = after_look ino a s

  abbrev set : SetFileAttr
  set = owner_set groups now req attr nothing_set

  looked_valid : IsFs looked
  looked_valid = after_read-IsFs ino a s v stored

  stored_looked : lookup ino looked.inodes.storage ≡ some a
  stored_looked = ap (lookup ino) (storage-after_read ino a s.inodes) ∙ stored

  -- What is written.
  abbrev written : FileAttr
  written = updated now set false (merged ino looked.inodes a)

  abbrev changed : Fs
  changed = record looked { inodes = after_set now ino set a looked.inodes }

  changed_valid : IsFs changed
  changed_valid = after_set-IsFs now ino set looked a looked_valid stored_looked

  stored_changed : lookup ino changed.inodes.storage ≡ some written
  stored_changed = ground (arith, lookup-insert ino ino written looked.inodes.storage)

  written_uid : written.uid ≡ a.uid
  unfolding merge_attr
  written_uid = uid-merged ino looked.inodes a

  written_gid : written.gid ≡ a.gid
  unfolding merge_attr
  written_gid = gid-merged ino looked.inodes a

  setattr_run :
      (is_given uid || is_given gid) ≡ true
      → setattr_owner groups now req ino none uid gid s
        ≡ (ok (some (merged ino changed.inodes written)), after_look ino written changed)
  unfolding setattr_owner chown
  setattr_run given =
      rw (get_attr_run ino a s.inodes (λ b hit. v.synced ino a b hit stored) stored, given)
        (rw (set_attr_run now ino set looked a looked_valid stored_looked) (
          rw
            (get_attr_run ino written changed.inodes
              (λ b hit. changed_valid.synced ino written b hit stored_changed) stored_changed)
            refl))

  -- From a valid state, `setattr` with an owner or a group or both, and no mode, succeeds for every
  -- caller, and neither the owner nor the group changes, in the reply and on disk.
  pub setattr_owner_lem :
      (is_given uid || is_given gid) ≡ true
      → let (r, s') = setattr_owner groups now req ino none uid gid s in
        (b : FileAttr) × (c : FileAttr) × (r ≡ ok (some b))
        × (b.uid ≡ a.uid)
        × (b.gid ≡ a.gid)
        × (lookup ino s'.inodes.storage ≡ some c)
        × (c.uid ≡ a.uid)
        × (c.gid ≡ a.gid)
  setattr_owner_lem given =
      let outcome : Result Errno (Option FileAttr) × Fs → Type 0 = λ x.
        (b : FileAttr) × (c : FileAttr) × (x.0 ≡ ok (some b))
        × (b.uid ≡ a.uid)
        × (b.gid ≡ a.gid)
        × (lookup ino x.1.inodes.storage ≡ some c)
        × (c.uid ≡ a.uid)
        × (c.gid ≡ a.gid) in
      subst outcome (sym (setattr_run given)) (
        merged ino changed.inodes written,
        written,
        refl,
        uid-merged ino changed.inodes written ∙ written_uid,
        gid-merged ino changed.inodes written ∙ written_gid,
        ap (lookup ino) (storage-after_read ino written changed.inodes) ∙ stored_changed,
        written_uid,
        written_gid,
      )
