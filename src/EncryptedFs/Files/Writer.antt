-- ===== src/EncryptedFs/Files/Writer.antt =====
-- A file keeps one writer, whatever is done with the open files.
use encryptedfs.Prelude.{
  ℕ, ◌+◌, ◌-◌, ◌≡◌, refl, sym, ap, ◌∙◌, ◌≢◌, inl, inr, Bool, Option, none, some, List, [], ◌∷◌,
  arith, ltb, ◌==◌, if◌then◌else◌, Bool-cases, Option-cases, length, take, Exec, ◌>>=◌,
}
use encryptedfs.Prelude.Assoc.{lookup, insert, lookup-insert}
use encryptedfs.EncryptedFs.{FsError, max_filesize_exceeded}
use encryptedfs.EncryptedFs.Attr.{set_times_and_size, set_times}
use encryptedfs.EncryptedFs.Inodes.{ReadHandleContext, WriteHandleContext}
use encryptedfs.EncryptedFs.Handles.{times_of, times_and_size_of, handles_of}
use encryptedfs.EncryptedFs.Files.{
  Streams, Opened, is_write_handle, reset_handles, reset_readers, reset_writer, reset_other_writer,
  renew_reader, renew_writer, write_at, skips, set_write_context, write_context,
}
use encryptedfs.EncryptedFs.Handles.Writers.{same-IsHandles, IsHandles}
use encryptedfs.EncryptedFs.Files.Frame.{
  Respects, Frames-Keeps, Keeps-bind, Frames-bind, Frames-if, Frames-pure, Frames-when, Frames-lift,
  Frames-raise_if, Frames-on_writer, Frames-readers, Frames-writers, Frames-set_read_context,
  Frames-read_context, Frames-open_contents, Frames-storage, Frames-set_attr, Keeps-pure, Keeps-if,
  Keeps-gets, Frames, Keeps,
}

module _ {R W : Type 0} where
  abbrev pub OneWriter : Opened R W → Type 0
  OneWriter s = IsHandles s.fs

  -- The handle is one for writing, of the file `ino`.
  abbrev pub WriterOf : ℕ → ℕ → Opened R W → Type 0
  WriterOf handle ino s =
      IsHandles s.fs
      × ((ctx : WriteHandleContext) × (lookup handle s.fs.inodes.write_handles ≡ some ctx)
          × (ctx.ino ≡ ino))

  -- No handle for writing is of the file `ino`.
  abbrev pub NoWriter : ℕ → Opened R W → Type 0
  NoWriter ino s =
      IsHandles s.fs
      × ((fh : ℕ) (ctx : WriteHandleContext)
          → lookup fh s.fs.inodes.write_handles ≡ some ctx
          → ctx.ino ≢ ino)

  OneWriter-respects : Respects OneWriter
  OneWriter-respects s s' same v = same-IsHandles s.fs s'.fs v same

  WriterOf-respects : (handle ino : ℕ) → Respects (WriterOf handle ino)
  WriterOf-respects handle ino s s' same (v, (ctx, found, at)) =
      (OneWriter-respects s s' same v, (ctx, ap (lookup handle) same.1.0 ∙ found, at))

  pub NoWriter-respects : (ino : ℕ) → Respects (NoWriter ino)
  NoWriter-respects ino s s' same (v, none_of) = (
    OneWriter-respects s s' same v,
    λ fh ctx found. none_of fh ctx (ap (lookup fh) (sym same.1.0) ∙ found),
  )

  -- The context of a handle is written again.
  set_write_context-WriterOf :
      (handle : ℕ) (ctx : WriteHandleContext)
      → Keeps (WriterOf handle ctx.ino) (set_write_context {R = R} {W = W} handle ctx)
  set_write_context-WriterOf handle ctx = record {
    at = λ s (h : WriterOf handle ctx.ino s).
        let v = h.0 in
        let (old, found, at) = h.1 in
        (
          record {
            writers = λ fh c e. ground (
              arith,
              e,
              lookup-insert handle fh ctx s.fs.inodes.write_handles,
              v.writers fh c,
              v.writers handle old found,
              at,
              ap (λ j. lookup j s.fs.inodes.opened_files_for_write) at,
            );
            drawn = λ fh c e. ground (
              arith,
              e,
              lookup-insert handle fh ctx s.fs.inodes.write_handles,
              v.drawn fh c,
              v.drawn handle old found,
            );
          },
          (ctx, ground (arith, lookup-insert handle handle ctx s.fs.inodes.write_handles), refl),
        );
  }

  -- What follows `get(&handle).unwrap()` may use that the handle is one.
  pub write_context-Keeps :
      {A : Type 0} (handle : ℕ) (f : WriteHandleContext → Exec FsError (Opened R W) A)
      → ((ctx : WriteHandleContext) → Keeps (WriterOf handle ctx.ino) (f ctx))
      → Keeps OneWriter (write_context handle >>= f)
  unfolding write_context
  write_context-Keeps handle f rest = record {
    at = λ s v. elim (Option-cases (lookup handle s.fs.inodes.write_handles)) [
      | inl z ↦ ground (arith, z, v)
      | inr (ctx, z) ↦ ground (arith, z, (rest ctx).at s (v, (ctx, z, refl)))
    ];
  }

module _ {R W : Type 0} (streams : Streams R W) where
  renew_reader-Frames :
      (handle : ℕ) (ctx : ReadHandleContext) (ino : ℕ)
      → Frames (renew_reader streams handle ctx ino)
  unfolding renew_reader
  renew_reader-Frames handle ctx ino = Frames-bind _ _ (Frames-storage ino) (λ attr.
      Frames-bind _ _ (Frames-open_contents ino) (λ u.
        Frames-bind _ _ (Frames-lift streams.create_read_seek) (λ reader.
          Frames-bind _ _ (Frames-readers (insert handle reader))
            (λ v. Frames-set_read_context handle (record ctx { attr = times_of attr })))))

  reset_readers-Frames :
      (now ino : ℕ) (skip : Option ℕ) (handles : List ℕ)
      → Frames (reset_readers streams now ino skip handles)
  unfolding reset_readers
  reset_readers-Frames now ino skip [] = Frames-pure tt
  reset_readers-Frames now ino skip (handle ∷ handles) =
      let rest = reset_readers-Frames now ino skip handles in
      let reset = λ (ctx : ReadHandleContext).
        Frames-bind _ _ (Frames-set_attr now ino (set_times ctx.attr))
          (λ u. renew_reader-Frames handle ctx ino) in
      Frames-bind _ _
        (Frames-if (skips skip handle) _ _ (Frames-pure tt)
          (Frames-bind _ _ (Frames-read_context handle) reset))
        (λ u. rest)

  -- A step of a part with a writer that leaves the tables alone.
  framed :
      (handle ino : ℕ) {A : Type 0} {m : Exec FsError (Opened R W) A}
      → Frames m
      → Keeps (WriterOf handle ino) m
  framed handle ino f = Frames-Keeps (WriterOf-respects handle ino) f

  pub framed_one : {A : Type 0} {m : Exec FsError (Opened R W) A} → Frames m → Keeps OneWriter m
  framed_one f = Frames-Keeps OneWriter-respects f

  pub renew_writer-Keeps :
      (handle : ℕ) (ctx : WriteHandleContext) (ino : ℕ)
      → Keeps (WriterOf handle ctx.ino) (renew_writer streams handle ctx ino)
  unfolding renew_writer
  renew_writer-Keeps handle ctx ino =
      Keeps-bind _ _ (framed handle ctx.ino (Frames-open_contents ino)) (λ u.
        Keeps-bind _ _ (framed handle ctx.ino (Frames-lift streams.create_write_seek)) (λ writer.
          Keeps-bind _ _ (framed handle ctx.ino (Frames-writers (insert handle writer))) (λ v.
            Keeps-bind _ _ (framed handle ctx.ino (Frames-storage ino)) (λ attr.
              set_write_context-WriterOf handle (record ctx { attr = times_and_size_of attr })))))

  reset_writer-Keeps :
      (now ino : ℕ) (save_attr : Bool) (handle : ℕ)
      → Keeps OneWriter (reset_writer streams now ino save_attr handle)
  unfolding reset_writer
  reset_writer-Keeps now ino save_attr handle =
      let reset = λ (ctx : WriteHandleContext).
        Keeps-bind _ _ (framed handle ctx.ino (Frames-on_writer handle ctx.ino streams.finish))
          (λ u.
            Keeps-bind _ _
              (framed handle ctx.ino
                (Frames-when save_attr _ (Frames-set_attr now ino (set_times_and_size ctx.attr))))
              (λ v. renew_writer-Keeps handle ctx ino)) in
      record {
        at = λ s v. elim (Bool-cases (is_write_handle handle s)) [
          | inl z ↦ rw z ((write_context-Keeps handle _ reset).at s v)
          | inr z ↦ rw z v
        ];
      }

  reset_other_writer-Keeps :
      (now ino : ℕ) (skip : Option ℕ) (save_attr : Bool) (writer : Option ℕ)
      → Keeps OneWriter (reset_other_writer streams now ino skip save_attr writer)
  unfolding reset_other_writer
  reset_other_writer-Keeps now ino skip save_attr none = Keeps-pure tt
  reset_other_writer-Keeps now ino skip save_attr (some fh) =
      Keeps-if (skips skip fh) _ _ (Keeps-pure tt) (reset_writer-Keeps now ino save_attr fh)

  pub reset_handles-Keeps :
      (now ino : ℕ) (skip : Option ℕ) (save_attr : Bool)
      → Keeps OneWriter (reset_handles streams now ino skip save_attr)
  unfolding reset_handles
  reset_handles-Keeps now ino skip save_attr =
      Keeps-bind _ _ (Keeps-gets (λ s. handles_of ino s.fs.inodes.opened_files_for_read))
        (λ handles. Keeps-bind _ _ (framed_one (reset_readers-Frames now ino skip handles)) (λ u.
          Keeps-bind _ _ (Keeps-gets (λ s. lookup ino s.fs.inodes.opened_files_for_write))
            (λ writer. reset_other_writer-Keeps now ino skip save_attr writer)))

  -- The two parts of `write`.
  pub write_at-Keeps :
      (max_len now ino offset : ℕ) (buf : List ℕ) (handle : ℕ)
      → Keeps OneWriter (write_at streams max_len now ino offset buf handle)
  unfolding write_at
  write_at-Keeps max_len now ino offset buf handle =
      let store = λ (ctx : WriteHandleContext) (here : ℕ).
        Keeps-bind _ _
          (framed handle ctx.ino (
            Frames-on_writer handle ino (
              streams.write_some
                (if ltb max_len (offset + length buf) then take (max_len - offset) buf else buf))))
          (λ len.
            Keeps-bind _ _
              (framed handle ctx.ino (Frames-on_writer handle ino streams.write_position))
              (λ behind.
                Keeps-bind _ _
                  (set_write_context-WriterOf handle (record ctx {
                    attr = record ctx.attr {
                      size = if ltb ctx.attr.size behind then behind else ctx.attr.size;
                      mtime = now;
                      ctime = now;
                      atime = now;
                    };
                  }))
                  (λ u. Keeps-pure (some len)))) in
      Keeps-bind _ _
        (framed_one (Frames-raise_if (ltb max_len offset) (max_filesize_exceeded max_len)))
        (λ u. write_context-Keeps handle _ (λ ctx.
          Keeps-bind _ _
            (framed handle ctx.ino (Frames-on_writer handle ino (streams.seek_write offset)))
            (λ here. Keeps-if (here == offset) _ _ (store ctx here) (Keeps-pure none))))
