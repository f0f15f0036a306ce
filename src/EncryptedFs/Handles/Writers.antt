-- ===== src/EncryptedFs/Handles/Writers.antt =====
-- A file has one writer.
use encryptedfs.Prelude.{
  ℕ, ◌+◌, ◌%◌, ◌^◌, ◌<◌, ◌≡◌, refl, sym, ap, ◌∙◌, subst, ◌⊎◌, inl, inr, Bool, false, some, arith,
  Bool-cases, Option-cases, Exec, pure, ◌>>◌, Result, ok, err,
}
use encryptedfs.Prelude.Assoc.{lookup, contains, insert, lookup-insert}
use encryptedfs.EncryptedFs.{FsError}
use encryptedfs.EncryptedFs.Attr.{FileAttr, SetFileAttr}
use encryptedfs.EncryptedFs.Inodes.{
  set_attr2, write_inode_to_storage, get_inode_from_storage, put_cache,
  get_inode_from_cache_or_storage, get_attr, WriteHandleContext, Inodes,
}
use encryptedfs.EncryptedFs.Tree.{is_file, Fs}
use encryptedfs.EncryptedFs.Handles.{
  times_and_size_of, open_contents, insert_read_handle, do_with_read_handle, insert_write_handle,
  do_with_write_handle, open_write,
}

-- Every write handle is the one that its file is open for writing with, and was drawn before.
pub record IsHandles (s : Fs) : Type 0 where
  pub writers :
      (fh : ℕ) (ctx : WriteHandleContext)
      → lookup fh s.inodes.write_handles ≡ some ctx
      → lookup ctx.ino s.inodes.opened_files_for_write ≡ some fh
  pub drawn :
      (fh : ℕ) (ctx : WriteHandleContext)
      → lookup fh s.inodes.write_handles ≡ some ctx
      → fh < s.current_handle

-- So two write handles are of two files.
pub one_writer :
    (s : Fs) (fh gh : ℕ) (ctx ctx' : WriteHandleContext)
    → IsHandles s
    → lookup fh s.inodes.write_handles ≡ some ctx
    → lookup gh s.inodes.write_handles ≡ some ctx'
    → ctx.ino ≡ ctx'.ino
    → fh ≡ gh
one_writer s fh gh ctx ctx' v e e' same_ino = ground (
  arith,
  v.writers fh ctx e,
  v.writers gh ctx' e',
  ap (λ x. lookup x s.inodes.opened_files_for_write) same_ino,
)

-- The tables of writers.
abbrev pub SameWriters : Inodes → Inodes → Type 0
SameWriters i i' =
    (i'.write_handles ≡ i.write_handles) × (i'.opened_files_for_write ≡ i.opened_files_for_write)

read-SameWriters : (ino : ℕ) (i : Inodes) → SameWriters i (get_inode_from_cache_or_storage ino i).1
unfolding get_inode_from_cache_or_storage get_inode_from_storage put_cache
read-SameWriters ino i = elim (Option-cases (lookup ino i.attr_cache)) [
  | inr (a, z) ↦ ground (arith, z)
  | inl z ↦ elim (Option-cases (lookup ino i.storage)) [
    | inr (a, y) ↦ ground (arith, z, y)
    | inl y ↦ ground (arith, z, y)
  ]
]

pub get_attr-SameWriters : (ino : ℕ) (i : Inodes) → SameWriters i (get_attr ino i).1
unfolding get_attr
get_attr-SameWriters ino i = ground (arith, read-SameWriters ino i)

pub storage-SameWriters : (ino : ℕ) (i : Inodes) → SameWriters i (get_inode_from_storage ino i).1
unfolding get_inode_from_storage
storage-SameWriters ino i = elim (Option-cases (lookup ino i.storage)) [
  | inr (a, y) ↦ ground (arith, y)
  | inl y ↦ ground (arith, y)
]

pub set_attr2-SameWriters :
    (now ino : ℕ) (set : SetFileAttr) (overwrite_size : Bool) (i : Inodes)
    → SameWriters i (set_attr2 now ino set overwrite_size i).1
unfolding set_attr2 write_inode_to_storage put_cache
set_attr2-SameWriters now ino set overwrite_size i = ground (arith, get_attr-SameWriters ino i)

-- What a call may do to the tables of writers: nothing, or add a handle of a file.
abbrev pub MayAdd : ℕ → ℕ → Fs → Fs → Type 0
MayAdd handle ino s s' =
    (s'.current_handle ≡ s.current_handle)
    × (SameWriters s.inodes s'.inodes
        ⊎ ((ctx : WriteHandleContext) × (ctx.ino ≡ ino)
            × (s'.inodes.write_handles ≡ insert handle ctx s.inodes.write_handles)
            × (s'.inodes.opened_files_for_write
                ≡ insert ino handle s.inodes.opened_files_for_write)))

pub read_handle-SameWriters :
    (handle ino : ℕ) (s : Fs)
    → let s' = (do_with_read_handle handle ino s).1 in
      (s'.current_handle ≡ s.current_handle) × SameWriters s.inodes s'.inodes
unfolding do_with_read_handle get_inode_from_storage open_contents insert_read_handle
read_handle-SameWriters handle ino s = elim (Option-cases (lookup ino s.inodes.storage)) [
  | inl z ↦ ground (arith, z)
  | inr (a, z) ↦ elim (Bool-cases (is_file ino s)) [
    | inl y ↦ ground (arith, z, y)
    | inr y ↦ ground (arith, z, y)
  ]
]

open_write-MayAdd :
    (handle ino : ℕ) (read : Bool) (s : Fs) → MayAdd handle ino s (open_write handle ino read s).1
unfolding open_write do_with_write_handle open_contents insert_write_handle
open_write-MayAdd handle ino read s =
    go (get_attr ino s.inodes).0 (get_attr ino s.inodes).1 refl refl
  where
    go :
        (r : Result FsError FileAttr) (i : Inodes)
        → (get_attr ino s.inodes).0 ≡ r
        → (get_attr ino s.inodes).1 ≡ i
        → MayAdd handle ino s (open_write handle ino read s).1
    go (err x) i e e' =
        (ground (arith, e, e'), inl (ground (arith, e, e', get_attr-SameWriters ino s.inodes)))
    go (ok a) i e e' = elim (Bool-cases (is_file ino s)) [
      | inl z ↦ (
        ground (arith, e, e', z),
        inr (
          record { ino = ino; attr = times_and_size_of a },
          refl,
          ground (arith, e, e', z, get_attr-SameWriters ino s.inodes),
          ground (arith, e, e', z, get_attr-SameWriters ino s.inodes),
        ),
      )
      | inr z ↦ (
        ground (arith, e, e', z),
        inl (ground (arith, e, e', z, get_attr-SameWriters ino s.inodes)),
      )
    ]

-- Adding the handle of a file that has no writer.
added-IsHandles :
    (handle ino : ℕ) (s s' : Fs)
    → IsHandles s
    → handle < s.current_handle
    → contains ino s.inodes.opened_files_for_write ≡ false
    → MayAdd handle ino s s'
    → IsHandles s'
added-IsHandles handle ino s s' v below idle (same_next, inl (same_w, same_o)) = record {
  writers =
      λ fh ctx e. ap (lookup ctx.ino) same_o ∙ v.writers fh ctx (ap (lookup fh) (sym same_w) ∙ e);
  drawn = λ fh ctx e. ground (arith, same_next, v.drawn fh ctx (ap (lookup fh) (sym same_w) ∙ e));
}
added-IsHandles handle ino s s' v below idle (same_next, inr (c, at, new_w, new_o)) = record {
  writers = λ fh ctx e.
      ap (lookup ctx.ino) new_o
      ∙ ground (
        arith,
        at,
        idle,
        ap (lookup fh) (sym new_w) ∙ e,
        lookup-insert handle fh c s.inodes.write_handles,
        lookup-insert ino ctx.ino handle s.inodes.opened_files_for_write,
        v.writers fh ctx,
      );
  drawn = λ fh ctx e. ground (
    arith,
    same_next,
    below,
    ap (lookup fh) (sym new_w) ∙ e,
    lookup-insert handle fh c s.inodes.write_handles,
    v.drawn fh ctx,
  );
}

pub drawn-IsHandles :
    (s : Fs)
    → IsHandles s
    → s.current_handle + 1 < 2 ^ 64
    → IsHandles (record s { current_handle = (s.current_handle + 1) % 2 ^ 64 })
drawn-IsHandles s v few = record {
  writers = v.writers;
  drawn = λ fh ctx e. ground (arith, few, v.drawn fh ctx e);
}

pub same-IsHandles :
    (s s' : Fs)
    → IsHandles s
    → (s'.current_handle ≡ s.current_handle) × SameWriters s.inodes s'.inodes
    → IsHandles s'
same-IsHandles s s' v (same_next, (same_w, same_o)) = record {
  writers =
      λ fh ctx e. ap (lookup ctx.ino) same_o ∙ v.writers fh ctx (ap (lookup fh) (sym same_w) ∙ e);
  drawn = λ fh ctx e. ground (arith, same_next, v.drawn fh ctx (ap (lookup fh) (sym same_w) ∙ e));
}

-- The write part of `open` for a handle that was drawn.
abbrev pub write_part : ℕ → ℕ → Bool → Exec FsError Fs ℕ
write_part handle ino read = do open_write handle ino read; pure handle

pub write_part-IsHandles :
    (handle ino : ℕ) (read : Bool) (s : Fs)
    → IsHandles s
    → handle < s.current_handle
    → contains ino s.inodes.opened_files_for_write ≡ false
    → IsHandles (write_part handle ino read s).1
write_part-IsHandles handle ino read s v below idle =
    let s' : Fs = (open_write handle ino read s).1 in
    let good = added-IsHandles handle ino s s' v below idle (open_write-MayAdd handle ino read s) in
    go (open_write handle ino read s).0 refl good
  where
    go :
        (r : Result FsError (Unit {0}))
        → (open_write handle ino read s).0 ≡ r
        → IsHandles (open_write handle ino read s).1
        → IsHandles (write_part handle ino read s).1
    go (ok u) e good =
        subst IsHandles {x = (open_write handle ino read s).1}
          {y = (write_part handle ino read s).1} (ground (arith, e)) good
    go (err x) e good =
        subst IsHandles {x = (open_write handle ino read s).1}
          {y = (write_part handle ino read s).1} (ground (arith, e)) good
