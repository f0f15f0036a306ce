-- ===== src/BufMut/Seek.antt =====
-- The three seeks of `BufMut`: where each goes, when it is refused, and what it moves.
use encryptedfs.Prelude.{
  ℕ, ◌^◌, ◌≤◌, ◌<◌, ◌≡◌, Bool, true, not, ◌&&◌, arith, leb, min, max, if◌then◌else◌, length, ok,
  err,
}
use encryptedfs.Prelude.Int.{pos_part, neg_part, ◌+ℤ◌, as_i64, as_u64, add_i64, ℤ, pos}
use encryptedfs.Io.{SeekFrom, start, from_end, current, invalid_input}
use encryptedfs.BufMut.Valid.{IsValid}
use encryptedfs.BufMut.{seek_target, out_of_bounds, seek_read, seek_write, seek_available, BufMut}

-- The target of a seek over the integers, with no cast and no wrap-around.
abbrev pub target : SeekFrom → ℕ → ℕ → ℤ
target (start p) len here = pos p
target (from_end d) len here = pos len +ℤ d
target (current d) len here = pos here +ℤ d

-- The values of an `i64`.
pub record FitsI64 (z : ℤ) : Type 0 where
  pub above : pos_part z < 2 ^ 63
  pub below : neg_part z ≤ 2 ^ 63

-- `0 ≤ z ≤ limit`.
abbrev pub within : ℤ → ℕ → Bool
within z limit = leb (neg_part z) 0 && leb (pos_part z) limit

add_i64-eq-+ℤ : (a b : ℤ) → FitsI64 (a +ℤ b) → add_i64 a b ≡ a +ℤ b
add_i64-eq-+ℤ a b h = ground arith

as_i64-eq-pos : (n : ℕ) → n < 2 ^ 63 → as_i64 n ≡ pos n
as_i64-eq-pos n h = ground arith

pub seek_target-eq-target :
    (p : SeekFrom) (len here : ℕ)
    → len < 2 ^ 63
    → here < 2 ^ 63
    → FitsI64 (target p len here)
    → seek_target p len here ≡ target p len here
seek_target-eq-target (start p) len here hl hh h = as_i64-eq-pos p h.above
seek_target-eq-target (from_end d) len here hl hh h =
    rw (as_i64-eq-pos len hl) (add_i64-eq-+ℤ (pos len) d h)
seek_target-eq-target (current d) len here hl hh h =
    rw (as_i64-eq-pos here hh) (add_i64-eq-+ℤ (pos here) d h)

-- The test of the code, on a target that fits, is the plain range test.
out_of_bounds-eq-within :
    (z : ℤ) (limit : ℕ) → limit < 2 ^ 63 → out_of_bounds z limit ≡ not (within z limit)
out_of_bounds-eq-within z limit h = ground arith

as_u64-eq-pos_part :
    (z : ℤ) (limit : ℕ) → limit < 2 ^ 63 → within z limit ≡ true → as_u64 z ≡ pos_part z
as_u64-eq-pos_part z limit h w = ground arith

module _ {b : BufMut} (p : SeekFrom) (v : IsValid b) where
  -- On a valid buffer, with a target that is an `i64`, `seek_read` moves the read position to the
  -- target and returns it if that is between 0 and the available length; if not, it fails and
  -- changes nothing.
  pub seek_read_lem :
      FitsI64 (target p (length b.buf) b.pos_read)
      → let t = target p (length b.buf) b.pos_read in
        seek_read p b ≡ (
          if within t b.available
          then (ok (pos_part t), record b { pos_read = pos_part t })
          else (err invalid_input, b))
  unfolding seek_read
  seek_read_lem h =
      let t : ℤ = target p (length b.buf) b.pos_read in
      let e : seek_target p (length b.buf) b.pos_read ≡ t =
        seek_target-eq-target p (length b.buf) b.pos_read (omega arith) (omega arith) h in
      rw (e, out_of_bounds-eq-within t b.available (omega arith))
        (ground (arith, as_u64-eq-pos_part t b.available))

  -- On a valid buffer, with a target that is an `i64`, `seek_write` moves the write position to
  -- the target and returns it if that is between 0 and the length of the buffer, and the available
  -- bytes then reach at least there; if not, it fails and changes nothing.
  pub seek_write_lem :
      FitsI64 (target p (length b.buf) b.pos_write)
      → let t = target p (length b.buf) b.pos_write in
        seek_write p b ≡ (
          if within t (length b.buf)
          then (
            ok (pos_part t),
            record b { pos_write = pos_part t; available = max (pos_part t) b.available },
          )
          else (err invalid_input, b))
  unfolding seek_write
  seek_write_lem h =
      let t : ℤ = target p (length b.buf) b.pos_write in
      let e : seek_target p (length b.buf) b.pos_write ≡ t =
        seek_target-eq-target p (length b.buf) b.pos_write (omega arith) (omega arith) h in
      rw (e, out_of_bounds-eq-within t (length b.buf) (omega arith))
        (ground (arith, as_u64-eq-pos_part t (length b.buf)))

  -- On a valid buffer, with a target that is an `i64`, `seek_available` sets the available length
  -- to the target and returns it if that is between 0 and the length of the buffer, and pulls the
  -- two positions back to it where they lie behind; if not, it fails and changes nothing.
  pub seek_available_lem :
      FitsI64 (target p (length b.buf) b.available)
      → let t = target p (length b.buf) b.available in
        seek_available p b ≡ (
          if within t (length b.buf)
          then (
            ok (pos_part t),
            record b {
              available = pos_part t;
              pos_write = min b.pos_write (pos_part t);
              pos_read = min b.pos_read (pos_part t);
            },
          )
          else (err invalid_input, b))
  unfolding seek_available
  seek_available_lem h =
      let t : ℤ = target p (length b.buf) b.available in
      let e : seek_target p (length b.buf) b.available ≡ t =
        seek_target-eq-target p (length b.buf) b.available (omega arith) (omega arith) h in
      rw (e, out_of_bounds-eq-within t (length b.buf) (omega arith))
        (ground (arith, as_u64-eq-pos_part t (length b.buf)))
