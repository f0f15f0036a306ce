-- ===== src/EncryptedFs/Handles/Open.antt =====
-- `open` keeps one writer for a file.
use encryptedfs.Prelude.{
  ℕ, ◌+◌, ◌%◌, ◌^◌, ◌<◌, ◌≡◌, refl, sym, subst, inl, inr, Bool, true, false, arith, if◌then◌else◌,
  Bool-cases, pure, continue, ◌>>◌, Result, ok, err,
}
use encryptedfs.Prelude.Assoc.{contains}
use encryptedfs.EncryptedFs.{FsError, invalid_inode_type, already_open_for_write}
use encryptedfs.EncryptedFs.Tree.{is_dir, Fs}
use encryptedfs.EncryptedFs.Handles.{next_handle, do_with_read_handle, open_handle}
use encryptedfs.EncryptedFs.Handles.Writers.{
  read_handle-SameWriters, drawn-IsHandles, same-IsHandles, write_part, write_part-IsHandles,
  IsHandles,
}

-- A value at the end changes nothing.
continue-pure :
    {E S A B : Type 0} (r : Result E A) (b : B) (s : S) → (continue r (λ _. pure b) s).1 ≡ s
continue-pure (ok a) b s = refl
continue-pure (err e) b s = refl

module _ (ino : ℕ) (s : Fs) (v : IsHandles s) (few : s.current_handle + 1 < 2 ^ 64) where
  abbrev drawn : Fs
  drawn = record s { current_handle = (s.current_handle + 1) % 2 ^ 64 }

  -- The state after the read part.
  abbrev read_drawn : Fs
  read_drawn = (do_with_read_handle s.current_handle ino drawn).1

  drawn_valid : IsHandles drawn
  drawn_valid = drawn-IsHandles s v few

  read_valid : IsHandles read_drawn
  read_valid =
      same-IsHandles drawn read_drawn drawn_valid
        (read_handle-SameWriters s.current_handle ino drawn)

  read_below : s.current_handle < read_drawn.current_handle
  read_below = ground (arith, few, read_handle-SameWriters s.current_handle ino drawn)

  -- After the test for a directory.
  checked :
      (x : Result FsError ℕ × Fs)
      → IsHandles x.1
      → IsHandles (if is_dir ino s then (err invalid_inode_type, s) else x).1
  checked x good = elim (Bool-cases (is_dir ino s)) [ inl z ↦ rw z v | inr z ↦ rw z good ]

  -- After the test for another writer.
  idle_checked :
      (handle : ℕ) (read : Bool) (t : Fs)
      → IsHandles t
      → (contains ino t.inodes.opened_files_for_write ≡ false
          → IsHandles (write_part handle ino read t).1)
      → IsHandles
          (if contains ino t.inodes.opened_files_for_write
            then (err already_open_for_write, t)
            else write_part handle ino read t).1
  idle_checked handle read t good idle =
      elim (Bool-cases (contains ino t.inodes.opened_files_for_write)) [
        | inl z ↦ rw z good
        | inr z ↦ rw z (idle z)
      ]

  read_part :
      IsHandles ((do do_with_read_handle s.current_handle ino; pure s.current_handle) drawn).1
  read_part =
      subst IsHandles
        (sym (
          continue-pure (do_with_read_handle s.current_handle ino drawn).0 s.current_handle
            read_drawn))
        read_valid

  -- What follows the read part.
  both_parts :
      (r : Result FsError (Unit {0}))
      → IsHandles
          (continue
            (continue r (λ _. pure s.current_handle) read_drawn).0
            (λ handle t.
              if contains ino t.inodes.opened_files_for_write
              then (err already_open_for_write, t)
              else write_part handle ino true t)
            (continue r (λ _. pure s.current_handle) read_drawn).1).1
  both_parts (err x) = read_valid
  both_parts (ok u) =
      idle_checked s.current_handle true read_drawn read_valid
        (write_part-IsHandles s.current_handle ino true read_drawn read_valid read_below)

  -- With every write handle the only one of its file, and fewer than 2^64 handles drawn, it is so after
  -- `open_handle` with any flags, whether it succeeds or fails.
  pub open_handle-IsHandles : (read write : Bool) → IsHandles (open_handle ino read write s).1
  unfolding open_handle next_handle
  open_handle-IsHandles false false = v
  open_handle-IsHandles true false =
      checked ((do do_with_read_handle s.current_handle ino; pure s.current_handle) drawn) read_part
  open_handle-IsHandles false true = elim (Bool-cases (is_dir ino s)) [
    | inl z ↦ rw z v
    | inr z ↦ rw z (elim (Bool-cases (contains ino s.inodes.opened_files_for_write)) [
      | inl y ↦ rw y v
      | inr y ↦ rw y (
          write_part-IsHandles s.current_handle ino false drawn drawn_valid (ground (arith, few)) y)
    ])
  ]
  open_handle-IsHandles true true = elim (Bool-cases (is_dir ino s)) [
    | inl z ↦ rw z v
    | inr z ↦ rw z (both_parts (do_with_read_handle s.current_handle ino drawn).0)
  ]
