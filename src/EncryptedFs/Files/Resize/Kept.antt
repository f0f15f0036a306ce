-- ===== src/EncryptedFs/Files/Resize/Kept.antt =====
-- `set_len` keeps at most one writer for a file.
use encryptedfs.Prelude.{
  ℕ, true, false, Option, none, some, List, arith, ◌==◌, Exec, modify, Result,
}
use encryptedfs.Prelude.Assoc.{lookup}
use encryptedfs.Io.{IoError}
use encryptedfs.EncryptedFs.{FsError, invalid_inode_type}
use encryptedfs.EncryptedFs.Attr.{
  nothing_set, with_size, with_atime, with_mtime, with_ctime, set_times_and_size, SetFileAttr,
}
use encryptedfs.EncryptedFs.Inodes.{WriteHandleContext}
use encryptedfs.EncryptedFs.Files.{Streams, Opened, contents_of, set_contents, io_result}
use encryptedfs.EncryptedFs.Files.Frame.{
  Keeps-bind, Frames-bind, Frames-gets, Frames-if, Frames-lift, Frames-raise_if,
  Frames-open_contents, Frames-storage, Frames-get_attr, Frames-set_attr2, Frames-set_attr,
  Keeps-pure, Keeps-if, Keeps-gets, Frames, Keeps,
}
use encryptedfs.EncryptedFs.Files.Writer.{
  OneWriter, write_context-Keeps, framed_one, renew_writer-Keeps, reset_handles-Keeps,
}
use encryptedfs.EncryptedFs.Files.Kept.{finish_writer-Frames}
use encryptedfs.EncryptedFs.Files.Resize.{
  is_directory, flush_writer_of, flush_handle, flush_and_reset_writers, empty_contents,
  replace_contents, set_len,
}

module _ {R W : Type 0} (streams : Streams R W)
    (rewrite : ℕ → ℕ → List ℕ → Result IoError (List ℕ)) where
  one : {A : Type 0} {m : Exec FsError (Opened R W) A} → Frames m → Keeps OneWriter m
  one f = framed_one streams f

  flush_writer_of-Keeps :
      (now ino handle : ℕ) (ctx : Option WriteHandleContext)
      → Keeps OneWriter (flush_writer_of streams rewrite now ino handle ctx)
  unfolding flush_writer_of
  flush_writer_of-Keeps now ino handle none = Keeps-pure tt
  flush_writer_of-Keeps now ino handle (some ctx) =
      Keeps-bind _ _ (one (finish_writer-Frames streams handle ctx.ino)) (λ a.
        Keeps-bind _ _ (one (Frames-set_attr now ino (set_times_and_size ctx.attr))) (λ b.
          Keeps-bind _ _ (reset_handles-Keeps streams now ino (some handle) true) (λ c.
            write_context-Keeps handle _ (λ ctx'. renew_writer-Keeps streams handle ctx' ino))))

  flush_handle-Keeps :
      (now ino : ℕ) (handle : Option ℕ)
      → Keeps OneWriter (flush_handle streams rewrite now ino handle)
  unfolding flush_handle
  flush_handle-Keeps now ino none = Keeps-pure tt
  flush_handle-Keeps now ino (some handle) =
      Keeps-bind _ _ (Keeps-gets (λ s. lookup handle s.fs.inodes.write_handles))
        (λ ctx. flush_writer_of-Keeps now ino handle ctx)

  flush_and_reset_writers-Keeps :
      (now ino : ℕ) → Keeps OneWriter (flush_and_reset_writers streams rewrite now ino)
  unfolding flush_and_reset_writers
  flush_and_reset_writers-Keeps now ino =
      Keeps-bind _ _ (Keeps-gets (λ s. lookup ino s.fs.inodes.opened_files_for_write))
        (λ handle. flush_handle-Keeps now ino handle)

  set_contents-Frames :
      (ino : ℕ) (bytes : List ℕ)
      → Frames {R = R} {W = W} (modify (λ s. record s { fs = set_contents ino bytes s.fs }))
  set_contents-Frames ino bytes = record { at = λ s. ground arith }

  empty_contents-Frames : (ino : ℕ) → Frames (empty_contents streams rewrite ino)
  unfolding empty_contents
  empty_contents-Frames ino = record { at = λ s. ground arith }

  replace_contents-Frames :
      (ino old size : ℕ) → Frames (replace_contents streams rewrite ino old size)
  unfolding replace_contents
  replace_contents-Frames ino old size = Frames-bind _ _ (Frames-open_contents ino) (λ a.
      Frames-bind _ _ (Frames-gets (λ s. contents_of ino s.fs)) (λ bytes.
        Frames-bind _ _ (Frames-lift (io_result (rewrite old size bytes)))
          (λ bytes'. set_contents-Frames ino bytes')))

  pub set_len-Keeps : (now ino size : ℕ) → Keeps OneWriter (set_len streams rewrite now ino size)
  unfolding set_len
  set_len-Keeps now ino size =
      let set : SetFileAttr =
        with_atime now (with_ctime now (with_mtime now (with_size size nothing_set))) in
      let last : (ino' : ℕ) → Keeps OneWriter _ = λ ino'.
        Keeps-bind _ _ (reset_handles-Keeps streams now ino' none false) (λ a.
          Keeps-bind _ _ (one (Frames-storage ino))
            (λ b. Keeps-bind _ _ (one (Frames-get_attr ino)) (λ c. Keeps-pure tt))) in
      Keeps-bind _ _ (one (Frames-get_attr ino)) (λ attr.
        Keeps-bind _ _ (one (Frames-raise_if (is_directory attr.kind) invalid_inode_type)) (λ a.
          Keeps-if (size == attr.size) _ _ (Keeps-pure tt) (
            Keeps-bind _ _ (flush_and_reset_writers-Keeps now ino) (λ b.
              Keeps-bind _ _
                (one (
                  Frames-if (size == 0) _ _ (empty_contents-Frames ino)
                    (replace_contents-Frames ino attr.size size)))
                (λ c. Keeps-bind _ _ (one (Frames-set_attr2 now ino set true)) (λ d.
                  Keeps-bind _ _ (one (Frames-storage ino)) (λ f.
                    Keeps-bind _ _ (one (Frames-get_attr ino)) (λ attr'. last attr'.ino))))))))
