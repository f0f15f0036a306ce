-- ===== src/EncryptedFs/Attr/Merge.antt =====
-- What merging the attributes of open handles gives does not depend on their order.
use encryptedfs.Prelude.{◌≡◌, false, arith, ℕ, max}
use encryptedfs.EncryptedFs.Attr.{set_times, merge_attr, FileAttr, TimesFileAttr}

max_swap : (a v w : ℕ) → max (max a w) v ≡ max (max a v) w
max_swap a v w = omega arith

-- Merging the times of two read handles in either order gives the same.
pub merge_times_swap :
    (v w : TimesFileAttr) (a : FileAttr)
    → merge_attr (set_times v) false (merge_attr (set_times w) false a)
      ≡ merge_attr (set_times w) false (merge_attr (set_times v) false a)
unfolding merge_attr
merge_times_swap v w a = ground (
  arith,
  max_swap a.atime v.atime w.atime,
  max_swap a.mtime v.mtime w.mtime,
  max_swap a.ctime v.ctime w.ctime,
  max_swap a.crtime v.crtime w.crtime,
)
