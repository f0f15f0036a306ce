-- ===== src/BufMut.antt =====
-- src/crypto/buf_mut.rs: a buffer of fixed length with a read and a write position. A byte is a
-- number that is only moved. A method that changes the buffer is an `Exec` action on it.
pub mod Valid
pub mod Seek
pub mod Cursor
pub mod Run
use encryptedfs.Prelude.{
  ℕ, ◌+◌, ◌-◌, min, max, Bool, true, false, ◌||◌, List, [], length, take, drop, splice, ltb, ◌==◌,
  if◌then◌else◌, Exec, ok, err,
}
use encryptedfs.Prelude.Int.{ℤ, pos, pos_part, as_i64, as_u64, add_i64, ltb_ℤ}
use encryptedfs.Io.{IoError, invalid_input, SeekFrom, start, from_end, current}

pub record BufMut : Type 0 where
  pub buf : List ℕ
  pub pos_write : ℕ
  pub pos_read : ℕ
  pub available : ℕ
  pub dirty : Bool

unfoldable pub new : List ℕ → BufMut
new from = record { buf = from; pos_write = 0; pos_read = 0; available = 0; dirty = false }

-- `usize` subtraction; `BufMut.Valid` shows that it never goes below 0.
abbrev pub remaining : BufMut → ℕ
remaining b = length b.buf - b.pos_write

-- The slice that `as_mut_remaining` hands out: what follows the available bytes.
abbrev pub as_mut_remaining : BufMut → List ℕ
as_mut_remaining b = drop b.available b.buf

unfoldable pub clear : BufMut → BufMut
clear b = record b { pos_write = 0; pos_read = 0; available = 0; dirty = false }

abbrev pub available_read : BufMut → ℕ
available_read b = b.available - b.pos_read

abbrev pub capacity : BufMut → ℕ
capacity b = length b.buf

-- The target of a seek: `Start` is a cast, `End` and `Current` are sums of `i64`s.
abbrev pub seek_target : SeekFrom → ℕ → ℕ → ℤ
seek_target (start p) len here = as_i64 p
seek_target (from_end d) len here = add_i64 (as_i64 len) d
seek_target (current d) len here = add_i64 (as_i64 here) d

-- `new_pos < 0 || new_pos > limit as i64`.
abbrev pub out_of_bounds : ℤ → ℕ → Bool
out_of_bounds p limit = ltb_ℤ p (pos 0) || ltb_ℤ (as_i64 limit) p

unfoldable pub seek_read : SeekFrom → Exec IoError BufMut ℕ
seek_read p b =
    let new_pos = seek_target p (length b.buf) b.pos_read in
    if out_of_bounds new_pos b.available
    then (err invalid_input, b)
    else (ok (as_u64 new_pos), record b { pos_read = as_u64 new_pos })

unfoldable pub seek_write : SeekFrom → Exec IoError BufMut ℕ
seek_write p b =
    let new_pos = seek_target p (length b.buf) b.pos_write in
    if out_of_bounds new_pos (length b.buf) then (err invalid_input, b) else (
      ok (as_u64 new_pos),
      record b { pos_write = as_u64 new_pos; available = max (as_u64 new_pos) b.available },
    )

unfoldable pub seek_available : SeekFrom → Exec IoError BufMut ℕ
seek_available p b =
    let new_pos = seek_target p (length b.buf) b.available in
    if out_of_bounds new_pos (length b.buf) then (err invalid_input, b) else (
      ok (as_u64 new_pos),
      record b {
        available = as_u64 new_pos;
        pos_write = min b.pos_write (as_u64 new_pos);
        pos_read = min b.pos_read (as_u64 new_pos);
      },
    )

-- The bytes that are there to be read.
abbrev pub as_ref_read_available : BufMut → List ℕ
as_ref_read_available b = take (b.available - b.pos_read) (drop b.pos_read b.buf)

-- `as_ref` and `as_mut`: the available bytes.
abbrev pub as_ref : BufMut → List ℕ
as_ref b = take b.available b.buf

-- What a caller leaves in the slice of `as_mut`, which keeps its length.
abbrev pub set_as_mut : List ℕ → BufMut → BufMut
set_as_mut bytes b = record b { buf = splice 0 bytes b.buf }

-- `impl Write for BufMut`: takes what fits, marks the buffer dirty, returns the count.
unfoldable pub write : List ℕ → Exec IoError BufMut ℕ
write src b =
    let len = min (remaining b) (length src) in
    if len == 0 then (ok 0, b) else (
      ok len,
      record b {
        buf = splice b.pos_write (take len src) b.buf;
        pos_write = b.pos_write + len;
        available = max (b.pos_write + len) b.available;
        dirty = true;
      },
    )

-- `impl Read for BufMut`, into a slice of length `n`; the count is the length of the bytes.
unfoldable pub read : ℕ → Exec IoError BufMut (List ℕ)
read n b =
    let len = min (available_read b) n in
    if len == 0
    then (ok [], b)
    else (ok (take len (drop b.pos_read b.buf)), record b { pos_read = b.pos_read + len })
