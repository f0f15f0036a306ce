-- ===== src/EncryptedFs/Files/Run.antt =====
-- Any sequence of operations on open files.
use encryptedfs.Prelude.{
  ℕ, refl, sym, subst, inl, inr, Bool, false, not, ◌||◌, some, List, [], ◌∷◌, arith, ◌==◌,
  Option-cases, Exec, ◌>>=◌, raise_if, Result,
}
use encryptedfs.Io.{IoError}
use encryptedfs.EncryptedFs.Files.Resize.{set_len}
use encryptedfs.EncryptedFs.Files.Resize.Kept.{set_len-Keeps}
use encryptedfs.Prelude.Assoc.{lookup, lookup-remove}
use encryptedfs.EncryptedFs.{FsError, invalid_file_handle}
use encryptedfs.EncryptedFs.Files.{Streams, Opened, read, write}
use encryptedfs.EncryptedFs.Handles.Writers.{IsHandles}
use encryptedfs.EncryptedFs.Files.Frame.{
  Keeps-bind, Frames-raise_if, Keeps-pure, Keeps-if, Keeps-Leads, Frames, Keeps,
}
use encryptedfs.EncryptedFs.Files.Writer.{OneWriter, framed_one}
use encryptedfs.EncryptedFs.Files.Release.{
  release_writer, take_read_context, take_write_context, release, flush,
}
use encryptedfs.EncryptedFs.Files.Kept.{
  write-Keeps, read-Frames, flush-Keeps, release_reader-Frames, take_write_context-NoWriter,
  release_writer-Leads,
}

module _ {R W : Type 0} (streams : Streams R W) where
  -- The end of `release`, after the write part.
  abbrev report : Bool → Bool → Exec FsError (Opened R W) (Unit {0})
  report was_read was_write = raise_if (not (was_read || was_write)) invalid_file_handle

  abbrev second_part : ℕ → ℕ → Bool → Exec FsError (Opened R W) (Unit {0})
  second_part now handle was_read = do
    ctx ← take_write_context streams handle
    was_write ← release_writer streams now handle ctx
    report was_read was_write

  take_read_context-Frames : (handle : ℕ) → Frames (take_read_context streams handle)
  take_read_context-Frames handle = record { at = λ s. (refl, (refl, refl)) }

  second_part-Keeps :
      (now handle : ℕ) (was_read : Bool) → Keeps OneWriter (second_part now handle was_read)
  unfolding release_writer
  second_part-Keeps now handle was_read = record {
    at = λ s v. elim (Option-cases (lookup handle s.fs.inodes.write_handles)) [
      | inl z ↦
          (let taken : Opened R W = (take_write_context streams handle s).1 in
            let kept : OneWriter taken = record {
              writers = λ fh c e.
                  ground
                    (arith, e, v.writers fh c, lookup-remove handle fh s.fs.inodes.write_handles);
              drawn = λ fh c e.
                  ground
                    (arith, e, v.drawn fh c, lookup-remove handle fh s.fs.inodes.write_handles);
            } in
            subst
              (λ o. OneWriter ((release_writer streams now handle o >>= report was_read) taken).1)
              (sym z)
              ((framed_one streams
                  (Frames-raise_if (not (was_read || false)) invalid_file_handle)).at
                taken kept))
      | inr (ctx, z) ↦
          (let taken : Opened R W = (take_write_context streams handle s).1 in
            let ended =
              Keeps-Leads (release_writer streams now handle (some ctx)) (report was_read)
                (release_writer-Leads streams now handle ctx)
                (λ was_write.
                  framed_one streams
                    (Frames-raise_if (not (was_read || was_write)) invalid_file_handle)) in
            subst
              (λ o. OneWriter ((release_writer streams now handle o >>= report was_read) taken).1)
              (sym z) (ended.at taken (take_write_context-NoWriter streams handle s ctx v z)))
    ];
  }

  pub release-Keeps : (now handle : ℕ) → Keeps OneWriter (release streams now handle)
  unfolding release
  release-Keeps now handle = Keeps-if (handle == 0) _ _ (Keeps-pure tt) (
      Keeps-bind _ _ (framed_one streams (take_read_context-Frames handle)) (λ ctx.
        Keeps-bind _ _ (framed_one streams (release_reader-Frames streams now handle ctx))
          (λ was_read. second_part-Keeps now handle was_read)))

-- What a caller may ask for, with the time at which it does.
pub data Request : Type 0 where
  read_request : ℕ → ℕ → ℕ → ℕ → ℕ → Request
  write_request : ℕ → ℕ → ℕ → List ℕ → ℕ → Request
  flush_request : ℕ → ℕ → Request
  release_request : ℕ → ℕ → Request
  set_len_request : ℕ → ℕ → ℕ → Request

module _ {R W : Type 0} (streams : Streams R W) (max_len : ℕ)
    (rewrite : ℕ → ℕ → List ℕ → Result IoError (List ℕ)) where
  -- One request; its result is dropped.
  unfoldable pub perform : Request → Opened R W → Opened R W
  perform (read_request now ino offset n handle) s = (read streams now ino offset n handle s).1
  perform (write_request now ino offset buf handle) s =
      (write streams max_len now ino offset buf handle s).1
  perform (flush_request now handle) s = (flush streams now handle s).1
  perform (release_request now handle) s = (release streams now handle s).1
  perform (set_len_request now ino size) s = (set_len streams rewrite now ino size s).1

  unfoldable pub run : List Request → Opened R W → Opened R W
  run [] s = s
  run (q ∷ qs) s = run qs (perform q s)

  perform-IsHandles : (q : Request) (s : Opened R W) → IsHandles s.fs → IsHandles (perform q s).fs
  unfolding perform
  perform-IsHandles (read_request now ino offset n handle) s v =
      (framed_one streams (read-Frames streams now ino offset n handle)).at s v
  perform-IsHandles (write_request now ino offset buf handle) s v =
      (write-Keeps streams max_len now ino offset buf handle).at s v
  perform-IsHandles (flush_request now handle) s v = (flush-Keeps streams now handle).at s v
  perform-IsHandles (release_request now handle) s v = (release-Keeps streams now handle).at s v
  perform-IsHandles (set_len_request now ino size) s v =
      (set_len-Keeps streams rewrite now ino size).at s v

  -- Whatever the streams and the copying of contents do: if every write handle is the one that its
  -- file is open for writing with, it is so after any sequence of reads, writes, flushes, releases
  -- and changes of length, whether each succeeds or fails.
  pub run-IsHandles :
      (qs : List Request) (s : Opened R W) → IsHandles s.fs → IsHandles (run qs s).fs
  unfolding run
  run-IsHandles [] s v = v
  run-IsHandles (q ∷ qs) s v = run-IsHandles qs (perform q s) (perform-IsHandles q s v)
