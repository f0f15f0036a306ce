-- ===== src/EncryptedFs/Files/Kept.antt =====
-- Every operation on open files keeps at most one writer for a file.
use encryptedfs.Prelude.{
  Option-cases, Bool-cases, inl, inr, ℕ, ◌≡◌, sym, ◌≢◌, Bool, true, false, not, Option, none, some,
  List, [], arith, ◌==◌, length, Exec, modify,
}
use encryptedfs.Prelude.Assoc.{lookup, remove, lookup-remove}
use encryptedfs.Stream
use encryptedfs.EncryptedFs.{FsError, inode_not_found, invalid_inode_type, invalid_file_handle}
use encryptedfs.EncryptedFs.Attr.{set_times_and_size, set_times}
use encryptedfs.EncryptedFs.Inodes.{ReadHandleContext, WriteHandleContext}
use encryptedfs.EncryptedFs.Tree.{exists, is_dir, is_file}
use encryptedfs.EncryptedFs.Files.{
  Streams, Opened, on_tables, is_read_handle, is_write_handle, finish_writer, after_write, read_at,
  read, write,
}
use encryptedfs.EncryptedFs.Handles.Writers.{one_writer}
use encryptedfs.EncryptedFs.Files.Frame.{
  Frames-Keeps, Keeps-bind, Frames-bind, Frames-gets, Frames-if, Frames-pure, Frames-raise_if,
  Frames-on_reader, Frames-on_writer, Frames-readers, Frames-set_read_context, Frames-read_context,
  Frames-write_context, Frames-open_contents, Frames-set_attr, Keeps-pure, Keeps-if, Keeps-gets,
  Leads-bind, Keeps-Leads, Frames, Keeps, Leads,
}
use encryptedfs.EncryptedFs.Files.Writer.{
  OneWriter, NoWriter, NoWriter-respects, framed_one, reset_handles-Keeps, write_at-Keeps,
}
use encryptedfs.EncryptedFs.Files.Release.{
  close_read, release_reader, release_writer, take_write_context, flush_writer, flush,
}

module _ {R W : Type 0} (streams : Streams R W) where
  one : {A : Type 0} {m : Exec FsError (Opened R W) A} → Frames m → Keeps OneWriter m
  one f = framed_one streams f

  after_write-Keeps :
      (now ino handle : ℕ) (written : Option ℕ)
      → Keeps OneWriter (after_write streams now ino handle written)
  unfolding after_write
  after_write-Keeps now ino handle none = Keeps-pure 0
  after_write-Keeps now ino handle (some len) =
      Keeps-bind _ _ (reset_handles-Keeps streams now ino (some handle) true) (λ u. Keeps-pure len)

  pub write-Keeps :
      (max_len now ino offset : ℕ) (buf : List ℕ) (handle : ℕ)
      → Keeps OneWriter (write streams max_len now ino offset buf handle)
  unfolding write
  write-Keeps max_len now ino offset buf handle = Keeps-bind _ _ (Keeps-gets (λ s. s)) (λ s.
      Keeps-bind _ _ (one (Frames-raise_if (not (exists ino s.fs)) inode_not_found)) (λ a.
        Keeps-bind _ _ (one (Frames-raise_if (not (is_file ino s.fs)) invalid_inode_type)) (λ b.
          Keeps-bind _ _
            (one (Frames-raise_if (not (is_write_handle handle s)) invalid_file_handle))
            (λ c. Keeps-bind _ _ (one (Frames-write_context handle)) (λ ctx.
              Keeps-bind _ _ (one (Frames-raise_if (not (ctx.ino == ino)) invalid_file_handle))
                (λ d. Keeps-if (length buf == 0) _ _ (Keeps-pure 0) (
                  Keeps-bind _ _ (write_at-Keeps streams max_len now ino offset buf handle)
                    (λ w. after_write-Keeps now ino handle w))))))))

  read_at-Frames :
      (now ino offset n handle : ℕ) (ctx : ReadHandleContext)
      → Frames (read_at streams now ino offset n handle ctx)
  unfolding read_at
  read_at-Frames now ino offset n handle ctx =
      let fill =
        Frames-bind _ _
          (Frames-on_reader handle ino (λ bytes. Stream.read (streams.read_some bytes) n))
          (λ bytes.
            Frames-bind _ _
              (Frames-set_read_context handle
                (record ctx { attr = record ctx.attr { atime = now } }))
              (λ u. Frames-pure bytes)) in
      Frames-bind _ _ (Frames-on_reader handle ino (λ bytes. streams.seek_read bytes offset)) (λ u.
        Frames-bind _ _ (Frames-on_reader handle ino streams.read_position)
          (λ here. Frames-if (here == offset) _ _ fill (Frames-pure [])))

  pub read-Frames : (now ino offset n handle : ℕ) → Frames (read streams now ino offset n handle)
  unfolding read
  read-Frames now ino offset n handle = Frames-bind _ _ (Frames-gets (λ s. s)) (λ s.
      Frames-bind _ _ (Frames-raise_if (not (exists ino s.fs)) inode_not_found) (λ a.
        Frames-bind _ _ (Frames-raise_if (not (is_file ino s.fs)) invalid_inode_type) (λ b.
          Frames-bind _ _ (Frames-raise_if (not (is_read_handle handle s)) invalid_file_handle)
            (λ c. Frames-bind _ _ (Frames-read_context handle) (λ ctx.
              Frames-bind _ _ (Frames-raise_if (not (ctx.ino == ino)) invalid_file_handle) (λ d.
                Frames-bind _ _ (Frames-raise_if (is_dir ino s.fs) invalid_inode_type) (λ e.
                  Frames-if (n == 0) _ _ (Frames-pure [])
                    (read_at-Frames now ino offset n handle ctx))))))))

  flush_writer-Keeps :
      (now handle : ℕ) (valid : Bool) (ctx : Option WriteHandleContext)
      → Keeps OneWriter (flush_writer streams now handle valid ctx)
  unfolding flush_writer
  flush_writer-Keeps now handle valid none = one (Frames-raise_if (not valid) invalid_file_handle)
  flush_writer-Keeps now handle valid (some ctx) =
      Keeps-bind _ _ (one (Frames-on_writer handle ctx.ino streams.flush)) (λ a.
        Keeps-bind _ _ (one (Frames-open_contents ctx.ino))
          (λ b. reset_handles-Keeps streams now ctx.ino (some handle) true))

  pub flush-Keeps : (now handle : ℕ) → Keeps OneWriter (flush streams now handle)
  unfolding flush
  flush-Keeps now handle = Keeps-if (handle == 0) _ _ (Keeps-pure tt) (
      Keeps-bind _ _ (Keeps-gets (λ s. is_read_handle handle s)) (λ valid.
        Keeps-bind _ _ (Keeps-gets (λ s. lookup handle s.fs.inodes.write_handles))
          (λ ctx. flush_writer-Keeps now handle valid ctx)))

  close_read-Frames : (handle ino : ℕ) → Frames (close_read streams handle ino)
  unfolding close_read
  close_read-Frames handle ino = record { at = λ s. ground arith }

  pub release_reader-Frames :
      (now handle : ℕ) (ctx : Option ReadHandleContext)
      → Frames (release_reader streams now handle ctx)
  unfolding release_reader
  release_reader-Frames now handle none = Frames-pure false
  release_reader-Frames now handle (some ctx) =
      Frames-bind _ _ (Frames-readers (λ m. remove handle m)) (λ a.
        Frames-bind _ _ (close_read-Frames handle ctx.ino) (λ b.
          Frames-bind _ _ (Frames-set_attr now ctx.ino (set_times ctx.attr))
            (λ c. Frames-pure true)))

  -- Once its handle is out of the table, the file has no writer.
  pub take_write_context-NoWriter :
      (handle : ℕ) (s : Opened R W) (ctx : WriteHandleContext)
      → OneWriter s
      → lookup handle s.fs.inodes.write_handles ≡ some ctx
      → NoWriter ctx.ino (take_write_context streams handle s).1
  take_write_context-NoWriter handle s ctx v found =
      let left_in : (fh : ℕ) (c : WriteHandleContext)
          → lookup fh (remove handle s.fs.inodes.write_handles) ≡ some c
          → (handle ≢ fh) × (lookup fh s.fs.inodes.write_handles ≡ some c) =
        λ fh c e. (
          λ z. ground (arith, z, e, lookup-remove handle fh s.fs.inodes.write_handles),
          ground (arith, e, lookup-remove handle fh s.fs.inodes.write_handles),
        ) in
      (
        record {
          writers = λ fh c e. v.writers fh c (left_in fh c e).1;
          drawn = λ fh c e. v.drawn fh c (left_in fh c e).1;
        },
        λ fh c e same_ino.
            (left_in fh c e).0
              (one_writer s.fs handle fh ctx c v found (left_in fh c e).1 (sym same_ino)),
      )

  -- With no writer, the file may leave the table of files that are open for writing.
  close_write-Leads :
      (ino : ℕ)
      → Leads (NoWriter ino) OneWriter (
          modify (
            on_tables {R = R} {W = W}
              (λ i. record i { opened_files_for_write = remove ino i.opened_files_for_write })))
  close_write-Leads ino = record {
    at = λ s (h : NoWriter ino s). record {
      writers = λ fh c e. ground (
        arith,
        h.1 fh c e,
        h.0.writers fh c e,
        lookup-remove ino c.ino s.fs.inodes.opened_files_for_write,
      );
      drawn = λ fh c e. h.0.drawn fh c e;
    };
  }

  pub finish_writer-Frames : (handle ino : ℕ) → Frames (finish_writer streams handle ino)
  unfolding finish_writer
  finish_writer-Frames handle ino = record {
    at = λ s. elim (Option-cases (lookup handle s.writers)) [
      | inl z ↦ ground (arith, z)
      | inr (writer, z) ↦ elim (Bool-cases (is_file ino s.fs)) [
        | inl y ↦ ground (arith, z, y)
        | inr y ↦ ground (arith, z, y)
      ]
    ];
  }

  pub release_writer-Leads :
      (now handle : ℕ) (ctx : WriteHandleContext)
      → Leads (NoWriter ctx.ino) OneWriter (release_writer streams now handle (some ctx))
  unfolding release_writer
  release_writer-Leads now handle ctx =
      Leads-bind _ _
        (Frames-Keeps (NoWriter-respects ctx.ino) (finish_writer-Frames handle ctx.ino))
        (λ s h. h.0)
        (λ a.
          Leads-bind _ _
            (Frames-Keeps (NoWriter-respects ctx.ino)
              (Frames-set_attr now ctx.ino (set_times_and_size ctx.attr)))
            (λ s h. h.0)
            (λ b. Keeps-Leads _ _ (close_write-Leads ctx.ino) (λ c.
              Keeps-bind _ _ (reset_handles-Keeps streams now ctx.ino (some handle) true)
                (λ d. Keeps-pure true))))
