-- ===== src/EncryptedFs/Inodes/Named.antt =====
-- Merging keeps the number, the kind and the owners of an inode.
use encryptedfs.Prelude.{
  ℕ, ◌≡◌, refl, ◌∙◌, inl, inr, Bool, false, List, [], ◌∷◌, arith, Option-cases,
}
use encryptedfs.Prelude.Assoc.{Assoc, lookup}
use encryptedfs.EncryptedFs.Attr.{
  set_times_and_size, set_times, merge_attr, FileAttr, SetFileAttr, TimesAndSizeFileAttr,
  TimesFileAttr,
}
use encryptedfs.EncryptedFs.Inodes.{
  merge_reads, merge_open_reads, merge_open_write, Inodes, ReadHandleContext,
}

-- The attributes on disk with those of the open handles.
abbrev pub merged : ℕ → Inodes → FileAttr → FileAttr
merged ino s a = merge_open_write ino s (merge_open_reads ino s a)

-- What the merges with a handle keep, all keep.
module _ {A : Type 0} (f : FileAttr → A)
    (kept_read : (v : TimesFileAttr) (a : FileAttr) → f (merge_attr (set_times v) false a) ≡ f a)
    (kept_write : (v : TimesAndSizeFileAttr) (a : FileAttr)
      → f (merge_attr (set_times_and_size v) false a) ≡ f a) where
  kept-merge_reads :
      (handles : Assoc ReadHandleContext) (fhs : List ℕ) (a : FileAttr)
      → f (merge_reads handles fhs a) ≡ f a
  unfolding merge_reads
  kept-merge_reads handles [] a = refl
  kept-merge_reads handles (fh ∷ fhs) a = elim (Option-cases (lookup fh handles)) [
    | inl z ↦ ground (arith, z, kept-merge_reads handles fhs a)
    | inr (v, z) ↦
        (let b : FileAttr = merge_attr (set_times v.attr) false a in
          ground (arith, z, kept-merge_reads handles fhs b, kept_read v.attr a))
  ]

  kept-open_reads : (ino : ℕ) (s : Inodes) (a : FileAttr) → f (merge_open_reads ino s a) ≡ f a
  unfolding merge_open_reads
  kept-open_reads ino s a = elim (Option-cases (lookup ino s.opened_files_for_read)) [
    | inl z ↦ ground (arith, z)
    | inr (fhs, z) ↦ ground (arith, z, kept-merge_reads s.read_handles fhs a)
  ]

  kept-open_write : (ino : ℕ) (s : Inodes) (a : FileAttr) → f (merge_open_write ino s a) ≡ f a
  unfolding merge_open_write
  kept-open_write ino s a = elim (Option-cases (lookup ino s.opened_files_for_write)) [
    | inl z ↦ ground (arith, z)
    | inr (fh, z) ↦ elim (Option-cases (lookup fh s.write_handles)) [
      | inl y ↦ ground (arith, z, y)
      | inr (v, y) ↦ ground (arith, z, y, kept_write v.attr a)
    ]
  ]

  kept-merged : (ino : ℕ) (s : Inodes) (a : FileAttr) → f (merged ino s a) ≡ f a
  kept-merged ino s a = kept-open_write ino s (merge_open_reads ino s a) ∙ kept-open_reads ino s a

pub ino-merge_attr :
    (set : SetFileAttr) (overwrite_size : Bool) (a : FileAttr)
    → (merge_attr set overwrite_size a).ino ≡ a.ino
unfolding merge_attr
ino-merge_attr set overwrite_size a = refl

pub kind-merge_attr :
    (set : SetFileAttr) (overwrite_size : Bool) (a : FileAttr)
    → (merge_attr set overwrite_size a).kind ≡ a.kind
unfolding merge_attr
kind-merge_attr set overwrite_size a = refl

pub ino-merged : (ino : ℕ) (s : Inodes) (a : FileAttr) → (merged ino s a).ino ≡ a.ino
unfolding merge_attr
ino-merged = kept-merged (λ a. a.ino) (λ v a. refl) (λ v a. refl)

pub kind-merged : (ino : ℕ) (s : Inodes) (a : FileAttr) → (merged ino s a).kind ≡ a.kind
unfolding merge_attr
kind-merged = kept-merged (λ a. a.kind) (λ v a. refl) (λ v a. refl)

pub uid-merged : (ino : ℕ) (s : Inodes) (a : FileAttr) → (merged ino s a).uid ≡ a.uid
unfolding merge_attr
uid-merged = kept-merged (λ a. a.uid) (λ v a. refl) (λ v a. refl)

pub gid-merged : (ino : ℕ) (s : Inodes) (a : FileAttr) → (merged ino s a).gid ≡ a.gid
unfolding merge_attr
gid-merged = kept-merged (λ a. a.gid) (λ v a. refl) (λ v a. refl)
