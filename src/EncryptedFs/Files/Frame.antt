-- ===== src/EncryptedFs/Files/Frame.antt =====
-- What the operations on open files leave alone: the tables of writers.
use encryptedfs.Prelude.{
  ℕ, ◌≡◌, refl, inl, inr, Bool, true, false, List, arith, if◌then◌else◌, Bool-cases, Option-cases,
  Exec, pure, gets, lift, continue, ◌>>=◌, modify, raise_if, when, Result, ok, err,
}
use encryptedfs.Prelude.Assoc.{Assoc, lookup}
use encryptedfs.Io.{IoError}
use encryptedfs.EncryptedFs.{FsError}
use encryptedfs.EncryptedFs.Attr.{SetFileAttr}
use encryptedfs.EncryptedFs.Inodes.{
  get_inode_from_storage, get_attr, set_attr2, set_attr, ReadHandleContext, Inodes,
}
use encryptedfs.EncryptedFs.Tree.{on_inodes, is_file}
use encryptedfs.EncryptedFs.Handles.{open_contents}
use encryptedfs.EncryptedFs.Files.{
  Opened, on_fs, on_reader, on_writer, set_read_context, read_context, write_context,
}
use encryptedfs.EncryptedFs.Handles.Writers.{
  SameWriters, get_attr-SameWriters, storage-SameWriters, set_attr2-SameWriters,
}

module _ {R W : Type 0} where
  -- The tables of writers, and the handles drawn, are as before.
  abbrev pub Same : Opened R W → Opened R W → Type 0
  Same s s' = (s'.fs.current_handle ≡ s.fs.current_handle) × SameWriters s.fs.inodes s'.fs.inodes

  pub record Frames {A : Type 0} (m : Exec FsError (Opened R W) A) : Type 0 where
    pub at : (s : Opened R W) → Same s (m s).1

  -- `m` keeps `P`, whether it succeeds or fails.
  pub record Keeps {A : Type 0} (P : Opened R W → Type 0) (m : Exec FsError (Opened R W) A)
      : Type 0 where
    pub at : (s : Opened R W) → P s → P (m s).1

  -- A property of the tables of writers only.
  abbrev pub Respects : (Opened R W → Type 0) → Type 0
  Respects P = (s s' : Opened R W) → Same s s' → P s → P s'

  pub Frames-Keeps :
      {A : Type 0} {P : Opened R W → Type 0} {m : Exec FsError (Opened R W) A}
      → Respects P
      → Frames m
      → Keeps P m
  Frames-Keeps {m = m} respects f = record { at = λ s h. respects s (m s).1 (f.at s) h }

  pub Keeps-bind :
      {A B : Type 0} {P : Opened R W → Type 0} (m : Exec FsError (Opened R W) A)
      (f : A → Exec FsError (Opened R W) B)
      → Keeps P m
      → ((a : A) → Keeps P (f a))
      → Keeps P (m >>= f)
  Keeps-bind {A} {P = P} m f km kf = record { at = λ s h. go (m s).0 (m s).1 (km.at s h) }
    where
      go : (r : Result FsError A) (s' : Opened R W) → P s' → P (continue r f s').1
      go (ok a) s' h = (kf a).at s' h
      go (err x) s' h = h

  pub Frames-bind :
      {A B : Type 0} (m : Exec FsError (Opened R W) A) (f : A → Exec FsError (Opened R W) B)
      → Frames m
      → ((a : A) → Frames (f a))
      → Frames (m >>= f)
  Frames-bind {A} m f km kf = record { at = λ s. go s (m s).0 (m s).1 (km.at s) }
    where
      go :
          (s : Opened R W) (r : Result FsError A) (s' : Opened R W)
          → Same s s'
          → Same s (continue r f s').1
      go s (ok a) s' h = let k = (kf a).at s' in ground (arith, h, k)
      go s (err x) s' h = h

  pub Frames-gets : {A : Type 0} (f : Opened R W → A) → Frames (gets f)
  Frames-gets f = record { at = λ s. (refl, (refl, refl)) }

  pub Frames-if :
      {A : Type 0} (b : Bool) (m n : Exec FsError (Opened R W) A)
      → Frames m
      → Frames n
      → Frames (if b then m else n)
  Frames-if true m n km kn = km
  Frames-if false m n km kn = kn

  pub Frames-pure : {A : Type 0} (a : A) → Frames (pure a)
  Frames-pure a = record { at = λ s. (refl, (refl, refl)) }

  pub Frames-when :
      (b : Bool) (m : Exec FsError (Opened R W) (Unit {0})) → Frames m → Frames (when b m)
  Frames-when true m km = km
  Frames-when false m km = Frames-pure tt

  pub Frames-lift : {A : Type 0} (r : Result FsError A) → Frames (lift r)
  Frames-lift r = record { at = λ s. (refl, (refl, refl)) }

  pub Frames-raise_if : (b : Bool) (x : FsError) → Frames (raise_if b x)
  Frames-raise_if true x = record { at = λ s. (refl, (refl, refl)) }
  Frames-raise_if false x = record { at = λ s. (refl, (refl, refl)) }

  pub Frames-on_reader :
      {A : Type 0} (handle ino : ℕ) (m : List ℕ → Exec IoError R A)
      → Frames (on_reader handle ino m)
  unfolding on_reader
  Frames-on_reader handle ino m = record {
    at = λ s. elim (Option-cases (lookup handle s.readers)) [
      | inl z ↦ ground (arith, z)
      | inr (reader, z) ↦ ground (arith, z)
    ];
  }

  pub Frames-on_writer :
      {A : Type 0} (handle ino : ℕ) (m : Exec IoError (W × List ℕ) A)
      → Frames (on_writer handle ino m)
  unfolding on_writer
  Frames-on_writer handle ino m = record {
    at = λ s. elim (Option-cases (lookup handle s.writers)) [
      | inl z ↦ ground (arith, z)
      | inr (writer, z) ↦ elim (Bool-cases (is_file ino s.fs)) [
        | inl y ↦ ground (arith, z, y)
        | inr y ↦ ground (arith, z, y)
      ]
    ];
  }

  pub Frames-readers :
      (g : Assoc R → Assoc R) → Frames (modify (λ s. record s { readers = g s.readers }))
  Frames-readers g = record { at = λ s. (refl, (refl, refl)) }

  pub Frames-writers :
      (g : Assoc W → Assoc W) → Frames (modify (λ s. record s { writers = g s.writers }))
  Frames-writers g = record { at = λ s. (refl, (refl, refl)) }

  pub Frames-set_read_context :
      (handle : ℕ) (ctx : ReadHandleContext) → Frames (set_read_context handle ctx)
  Frames-set_read_context handle ctx = record { at = λ s. (refl, (refl, refl)) }

  pub Frames-read_context : (handle : ℕ) → Frames (read_context handle)
  unfolding read_context
  Frames-read_context handle = record { at = λ s. ground arith }

  pub Frames-write_context : (handle : ℕ) → Frames (write_context handle)
  unfolding write_context
  Frames-write_context handle = record { at = λ s. ground arith }

  pub Frames-open_contents : (ino : ℕ) → Frames (on_fs (open_contents ino))
  unfolding open_contents
  Frames-open_contents ino = record {
    at = λ s. elim (Bool-cases (is_file ino s.fs)) [
      | inl y ↦ ground (arith, y)
      | inr y ↦ ground (arith, y)
    ];
  }

  pub Frames-inodes :
      {A : Type 0} (m : Exec FsError Inodes A)
      → ((i : Inodes) → SameWriters i (m i).1)
      → Frames (on_fs (on_inodes m))
  Frames-inodes m same = record { at = λ s. (refl, same s.fs.inodes) }

  pub Frames-storage : (ino : ℕ) → Frames (on_fs (on_inodes (get_inode_from_storage ino)))
  Frames-storage ino = Frames-inodes (get_inode_from_storage ino) (storage-SameWriters ino)

  pub Frames-get_attr : (ino : ℕ) → Frames (on_fs (on_inodes (get_attr ino)))
  Frames-get_attr ino = Frames-inodes (get_attr ino) (get_attr-SameWriters ino)

  pub Frames-set_attr2 :
      (now ino : ℕ) (set : SetFileAttr) (overwrite_size : Bool)
      → Frames (on_fs (on_inodes (set_attr2 now ino set overwrite_size)))
  Frames-set_attr2 now ino set overwrite_size =
      Frames-inodes (set_attr2 now ino set overwrite_size)
        (set_attr2-SameWriters now ino set overwrite_size)

  pub Frames-set_attr :
      (now ino : ℕ) (set : SetFileAttr) → Frames (on_fs (on_inodes (set_attr now ino set)))
  unfolding set_attr
  Frames-set_attr now ino set = Frames-set_attr2 now ino set false

  pub Keeps-pure : {A : Type 0} {P : Opened R W → Type 0} (a : A) → Keeps P (pure a)
  Keeps-pure a = record { at = λ s h. h }

  pub Keeps-if :
      {A : Type 0} {P : Opened R W → Type 0} (b : Bool) (m n : Exec FsError (Opened R W) A)
      → Keeps P m
      → Keeps P n
      → Keeps P (if b then m else n)
  Keeps-if true m n km kn = km
  Keeps-if false m n km kn = kn

  pub Keeps-gets : {A : Type 0} {P : Opened R W → Type 0} (f : Opened R W → A) → Keeps P (gets f)
  Keeps-gets f = record { at = λ s h. h }

  -- `m` leads from `P` to `Q`, whether it succeeds or fails.
  pub record Leads {A : Type 0} (P Q : Opened R W → Type 0) (m : Exec FsError (Opened R W) A)
      : Type 0 where
    pub at : (s : Opened R W) → P s → Q (m s).1

  pub Leads-bind :
      {A B : Type 0} {P Q : Opened R W → Type 0} (m : Exec FsError (Opened R W) A)
      (f : A → Exec FsError (Opened R W) B)
      → Keeps P m
      → ((s : Opened R W) → P s → Q s)
      → ((a : A) → Leads P Q (f a))
      → Leads P Q (m >>= f)
  Leads-bind {A} {P = P} {Q = Q} m f km weaken kf = record {
    at = λ s h. go (m s).0 (m s).1 (km.at s h);
  }
    where
      go : (r : Result FsError A) (s' : Opened R W) → P s' → Q (continue r f s').1
      go (ok a) s' h = (kf a).at s' h
      go (err x) s' h = weaken s' h

  pub Keeps-Leads :
      {A B : Type 0} {P Q : Opened R W → Type 0} (m : Exec FsError (Opened R W) A)
      (f : A → Exec FsError (Opened R W) B)
      → Leads P Q m
      → ((a : A) → Keeps Q (f a))
      → Leads P Q (m >>= f)
  Keeps-Leads {A} {P = P} {Q = Q} m f km kf = record { at = λ s h. go (m s).0 (m s).1 (km.at s h) }
    where
      go : (r : Result FsError A) (s' : Opened R W) → Q s' → Q (continue r f s').1
      go (ok a) s' h = (kf a).at s' h
      go (err x) s' h = h
