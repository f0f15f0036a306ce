-- ===== src/EncryptedFs/Files/Short.antt =====
-- `copy_file_range` where the read comes back short.
use encryptedfs.Prelude.{
  ℕ, zero, suc, ◌+◌, ◌≤◌, ◌<◌, ◌≡◌, refl, ap, ◌⊎◌, inl, inr, true, false, ◌&&◌, ◌||◌, some, List,
  [], arith, ltb, ◌==◌, if◌then◌else◌, Bool-cases, Option-cases, length, drop, drop_all, Result, ok,
  err,
}
use encryptedfs.Prelude.Assoc.{lookup}
use encryptedfs.EncryptedFs.{
  FsError, inode_not_found, invalid_inode_type, invalid_file_handle, other,
}
use encryptedfs.EncryptedFs.Inodes.{WriteHandleContext}
use encryptedfs.EncryptedFs.Tree.{exists, is_dir, is_file}
use encryptedfs.EncryptedFs.Files.{Streams, Opened, is_write_handle, read, write, write_context}
use encryptedfs.EncryptedFs.Files.Range.{copy_loop, copy_file_range}

write_context_run :
    {R W : Type 0} (handle : ℕ) (s : Opened R W) (ctx : WriteHandleContext)
    → lookup handle s.fs.inodes.write_handles ≡ some ctx
    → write_context handle s ≡ (ok ctx, s)
unfolding write_context
write_context_run handle s ctx found = ground (arith, found)

module _ {R W : Type 0} (streams : Streams R W) (max_len now : ℕ) where
  -- A write of nothing changes nothing, and counts nothing if it does not fail.
  abbrev Idle : Opened R W → Result FsError ℕ × Opened R W → Type 0
  Idle s outcome = (outcome.1 ≡ s) × ((outcome.0 ≡ ok 0) ⊎ ((x : FsError) × (outcome.0 ≡ err x)))

  write-nil :
      (ino offset handle : ℕ) (s : Opened R W)
      → Idle s (write streams max_len now ino offset [] handle s)
  unfolding write
  write-nil ino offset handle s = elim (Bool-cases (exists ino s.fs)) [
    | inr z ↦ rw z (refl, inr (inode_not_found, refl))
    | inl z ↦ rw z (elim (Bool-cases (is_file ino s.fs)) [
      | inr y ↦ rw y (refl, inr (invalid_inode_type, refl))
      | inl y ↦ rw y (elim (Option-cases (lookup handle s.fs.inodes.write_handles)) [
        | inl x ↦
            (let missing : is_write_handle handle s ≡ false = ground (arith, x) in
              rw missing (refl, inr (invalid_file_handle, refl)))
        | inr (ctx, x) ↦
            (let is_h : is_write_handle handle s ≡ true = ground (arith, x) in
              let got : write_context handle s ≡ (ok ctx, s) = write_context_run handle s ctx x in
              rw is_h (
                rw got (elim (Bool-cases (ctx.ino == ino)) [
                  | inl w ↦ rw w (refl, inl refl)
                  | inr w ↦ rw w (refl, inr (invalid_file_handle, refl))
                ])))
      ])
    ])
  ]

  module _ (src_ino src_offset dest_ino dest_offset size src_fh dest_fh : ℕ) (s s1 s2 : Opened R W)
      (bytes : List ℕ) where
    abbrev outcome : Result FsError ℕ × Opened R W
    outcome =
        copy_file_range streams max_len now src_ino src_offset dest_ino dest_offset size src_fh
          dest_fh s

    -- The loop after a write that took everything.
    second_round :
        (fuel : ℕ)
        → length bytes ≤ size
        → 0 < fuel
        → let (r, s') =
            copy_loop streams max_len now fuel dest_ino dest_offset dest_fh size bytes
              (length bytes)
              s2 in
          (s' ≡ s2) × (if length bytes == size then r ≡ ok tt else ((x : FsError) × (r ≡ err x)))
    unfolding copy_loop
    second_round zero le more = absurd (omega arith)
    second_round (suc fuel) le more =
        let at_end : drop (length bytes) bytes ≡ [] = drop_all (length bytes) bytes (omega arith) in
        let in_range : (ltb (length bytes) size && ltb (length bytes) (length bytes)) ≡ false =
          ground arith in
        elim (Bool-cases (length bytes == size)) [
          | inl whole ↦
              (let done : ltb (length bytes) size ≡ false = ground arith in
                rw (in_range, done, whole) (refl, refl))
          | inr short ↦
              (let less : ltb (length bytes) size ≡ true = ground arith in
                let not_over : ltb (length bytes) (length bytes) ≡ false = ground arith in
                let (stays, result) = write-nil dest_ino dest_offset dest_fh s2 in
                let nothing = write streams max_len now dest_ino dest_offset [] dest_fh s2 in
                elim result [
                  | inl none_written ↦
                      (let run : nothing ≡ (ok 0, s2) = λ i. (none_written i, stays i) in
                        rw (less, not_over, short, at_end, run) (refl, (other, refl)))
                  | inr (x, failed) ↦
                      (let run : nothing ≡ (err x, s2) = λ i. (failed i, stays i) in
                        rw (less, not_over, short, at_end, run) (refl, (x, refl)))
                ])
        ]

    first_round :
        0 < length bytes
        → length bytes ≤ size
        → write streams max_len now dest_ino dest_offset bytes dest_fh s1 ≡ (ok (length bytes), s2)
        → copy_loop streams max_len now (suc size) dest_ino dest_offset dest_fh size bytes 0 s1
          ≡ copy_loop streams max_len now size dest_ino dest_offset dest_fh size bytes
              (length bytes)
              s2
    unfolding copy_loop
    first_round some_bytes le has_written =
        let started : ltb 0 size ≡ true = ground arith in
        let in_range : ltb (length bytes) 0 ≡ false = ground arith in
        let counted : (length bytes == 0) ≡ false = ground arith in
        let next : 0 + length bytes ≡ length bytes = omega arith in
        rw (started, in_range, has_written, counted, next) refl

    -- If the read returns some bytes and one write takes them all, `copy_file_range` returns `size`
    -- where as many were asked for. Where the read came back short, as it does at the end of the
    -- file, it fails, although the bytes have been written.
    pub copy_file_range_lem :
        (is_dir src_ino s.fs || is_dir dest_ino s.fs) ≡ false
        → read streams now src_ino src_offset size src_fh s ≡ (ok bytes, s1)
        → 0 < length bytes
        → length bytes ≤ size
        → write streams max_len now dest_ino dest_offset bytes dest_fh s1 ≡ (ok (length bytes), s2)
        → (outcome.1 ≡ s2)
          × (if length bytes == size
              then outcome.0 ≡ ok size
              else ((x : FsError) × (outcome.0 ≡ err x)))
    unfolding copy_file_range
    copy_file_range_lem files has_read some_bytes le has_written =
        let counted : (length bytes == 0) ≡ false = ground arith in
        let first = first_round some_bytes le has_written in
        let (stays, result) = second_round size le (omega arith) in
        elim (Bool-cases (length bytes == size)) [
          | inl whole ↦
              (let all : length bytes ≡ size = ground arith in
                let run = rw whole at result in
                rw files (
                  rw has_read
                    (rw counted (rw first (rw (whole, run) (stays, ap (λ n. ok n) all))))))
          | inr short ↦
              (let (x, run) = rw short at result in
                rw files (rw has_read (rw counted (rw first (rw (short, run) (stays, (x, refl)))))))
        ]
