-- ===== src/BufMut/Valid.antt =====
-- The invariant of `BufMut`: the positions are in order and inside the buffer, so no subtraction
-- of positions underflows and no slice is out of range.
use encryptedfs.Prelude.{
  ℕ, ◌^◌, ◌≤◌, ◌<◌, min, ◌≡◌, List, arith, length, take, splice, length-splice, length-take,
}
use encryptedfs.Io.{SeekFrom}
use encryptedfs.BufMut.{
  BufMut, new, clear, remaining, set_as_mut, seek_read, seek_write, seek_available, read, write,
}

-- `Vec` holds at most `isize::MAX` bytes.
pub record IsValid (b : BufMut) : Type 0 where
  pub read_le : b.pos_read ≤ b.available
  pub write_le : b.pos_write ≤ b.available
  pub available_le : b.available ≤ length b.buf
  pub small : length b.buf < 2 ^ 63

pub new-IsValid : (from : List ℕ) → length from < 2 ^ 63 → IsValid (new from)
unfolding new
new-IsValid from h = omega arith

pub clear-IsValid : {b : BufMut} → IsValid b → IsValid (clear b)
unfolding clear
clear-IsValid v = omega arith

pub seek_read-IsValid : {b : BufMut} (p : SeekFrom) → IsValid b → IsValid (seek_read p b).1
unfolding seek_read
seek_read-IsValid p v = ground arith

pub seek_write-IsValid : {b : BufMut} (p : SeekFrom) → IsValid b → IsValid (seek_write p b).1
unfolding seek_write
seek_write-IsValid p v = ground arith

pub seek_available-IsValid :
    {b : BufMut} (p : SeekFrom) → IsValid b → IsValid (seek_available p b).1
unfolding seek_available
seek_available-IsValid p v = ground arith

pub read-IsValid : {b : BufMut} (n : ℕ) → IsValid b → IsValid (read n b).1
unfolding read
read-IsValid n v = ground arith

-- The slice that `write` fills lies inside the buffer.
pub length-write_slice :
    {b : BufMut} (src : List ℕ)
    → IsValid b
    → length (splice b.pos_write (take (min (remaining b) (length src)) src) b.buf) ≡ length b.buf
length-write_slice {b} src v =
    length-splice b.pos_write (take (min (remaining b) (length src)) src) b.buf
      (omega (arith, length-take (min (remaining b) (length src)) src))

pub write-IsValid : {b : BufMut} (src : List ℕ) → IsValid b → IsValid (write src b).1
unfolding write
write-IsValid src v = ground (arith, length-write_slice src v)

pub length-write :
    {b : BufMut} (src : List ℕ) → IsValid b → length (write src b).1.buf ≡ length b.buf
unfolding write
length-write src v = ground (arith, length-write_slice src v)

pub set_as_mut-IsValid :
    {b : BufMut} (bytes : List ℕ)
    → length bytes ≤ b.available
    → IsValid b
    → IsValid (set_as_mut bytes b)
set_as_mut-IsValid {b} bytes h v = omega (arith, length-splice 0 bytes b.buf (omega arith))
