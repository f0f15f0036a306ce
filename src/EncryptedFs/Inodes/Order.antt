-- ===== src/EncryptedFs/Inodes/Order.antt =====
-- The read handles of a file are a set: the order in which their times are merged has no effect.
use encryptedfs.Prelude.{ℕ, ◌≡◌, inl, inr, false, List, [], ◌∷◌, ◌++◌, arith, Option-cases}
use encryptedfs.Prelude.Assoc.{Assoc, lookup}
use encryptedfs.EncryptedFs.Attr.{set_times, merge_attr, FileAttr}
use encryptedfs.EncryptedFs.Attr.Merge.{merge_times_swap}
use encryptedfs.EncryptedFs.Inodes.{merge_reads, ReadHandleContext}

swap_first :
    (handles : Assoc ReadHandleContext) (x y : ℕ) (ys : List ℕ) (a : FileAttr)
    → merge_reads handles (x ∷ y ∷ ys) a ≡ merge_reads handles (y ∷ x ∷ ys) a
unfolding merge_reads
swap_first handles x y ys a = elim (Option-cases (lookup x handles)) [
  | inl z ↦ ground (arith, z)
  | inr (v, z) ↦ elim (Option-cases (lookup y handles)) [
    | inl u ↦ ground (arith, z, u)
    | inr (w, u) ↦ ground (arith, z, u, merge_times_swap v.attr w.attr a)
  ]
]

-- Two handles next to each other in the list of the read handles may be swapped, so that their order
-- has no effect on the merged attributes.
pub merge_reads-swap :
    (handles : Assoc ReadHandleContext) (xs ys : List ℕ) (x y : ℕ) (a : FileAttr)
    → merge_reads handles (xs ++ x ∷ y ∷ ys) a ≡ merge_reads handles (xs ++ y ∷ x ∷ ys) a
unfolding merge_reads
merge_reads-swap handles [] ys x y a = swap_first handles x y ys a
merge_reads-swap handles (fh ∷ xs) ys x y a = elim (Option-cases (lookup fh handles)) [
  | inl z ↦ ground (arith, z, merge_reads-swap handles xs ys x y a)
  | inr (v, z) ↦
      ground (arith, z, merge_reads-swap handles xs ys x y (merge_attr (set_times v.attr) false a))
]
