-- ===== src/BufMut/Cursor.antt =====
-- `BufMut` as a cursor over its available bytes: what `write` stores and what `read` returns.
use encryptedfs.Prelude.{
  ℕ, ◌+◌, ◌-◌, ◌≡◌, List, arith, length, take, drop, length-take, length-drop, ok, drop-drop,
  take-take, drop-take, min, ◌||◌, ltb, [], take-append-drop, take-splice-max, splice, max,
}
use encryptedfs.BufMut.{as_ref_read_available, read, BufMut, remaining, as_ref, write}
use encryptedfs.BufMut.Valid.{IsValid, length-write_slice}

-- The bytes that are yet to be read.
abbrev pub unread : BufMut → List ℕ
unread b = as_ref_read_available b

pub length-unread : {b : BufMut} → IsValid b → length (unread b) ≡ b.available - b.pos_read
length-unread {b} v = omega (
  arith,
  length-take (b.available - b.pos_read) (drop b.pos_read b.buf),
  length-drop b.pos_read b.buf,
)

-- On a valid buffer, a read returns the first `n` unread bytes, or all of them if there are fewer,
-- and leaves the rest unread; it changes nothing but the read position.
pub read_lem :
    {b : BufMut} (n : ℕ)
    → IsValid b
    → let (r, b') = read n b in
      (r ≡ ok (take n (unread b)))
      × (unread b' ≡ drop n (unread b))
      × (b' ≡ record b { pos_read = b.pos_read + length (take n (unread b)) })
unfolding read
read_lem {b} n v = ground (
  arith,
  take-take n (b.available - b.pos_read) (drop b.pos_read b.buf),
  drop-take n (b.available - b.pos_read) (drop b.pos_read b.buf),
  drop-drop n b.pos_read b.buf,
  length-take n (unread b),
  length-unread v,
)

splice_nil : (i : ℕ) (xs : List ℕ) → splice i [] xs ≡ xs
splice_nil i xs = let e : i + 0 ≡ i = omega arith in rw e (take-append-drop i xs)

-- On a valid buffer, a write stores what fits of `src` at the write position, over the available
-- bytes, and returns the count; the write position moves behind it, the available bytes reach at
-- least there, the read position and the length stay, and the buffer is dirty if it was or if
-- anything was stored.
pub write_lem :
    {b : BufMut} (src : List ℕ)
    → IsValid b
    → let (r, b') = write src b in
      let n = min (remaining b) (length src) in
      (r ≡ ok n)
      × (as_ref b' ≡ splice b.pos_write (take n src) (as_ref b))
      × (b'.pos_write ≡ b.pos_write + n)
      × (b'.available ≡ max (b.pos_write + n) b.available)
      × (b'.pos_read ≡ b.pos_read)
      × (length b'.buf ≡ length b.buf)
      × (b'.dirty ≡ (b.dirty || ltb 0 n))
unfolding write
write_lem {b} src v = ground (
  arith,
  length-take (min (remaining b) (length src)) src,
  length-write_slice src v,
  take-splice-max b.pos_write b.available (take (min (remaining b) (length src)) src) b.buf,
  splice_nil b.pos_write (as_ref b),
)
