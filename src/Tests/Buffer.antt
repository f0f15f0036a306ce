-- ===== src/Tests/Buffer.antt =====
-- The theorems on `BufMut` at a buffer of five bytes.
use encryptedfs.Prelude.{◌≡◌, true, List, [], ◌∷◌, arith, length, err}
use encryptedfs.Prelude.Int.{negsuc}
use encryptedfs.Io.{start, current, invalid_input}
use encryptedfs.BufMut
use encryptedfs.BufMut.{BufMut}
use encryptedfs.BufMut.Valid.{IsValid}
use encryptedfs.BufMut.Seek.{seek_read_lem}
use encryptedfs.BufMut.Run.{
  Op, run, run-IsValid, writes, seeks_read, reads, seeks_write, seeks_available,
}

-- Three bytes written, the first of them read.
abbrev sample_buf : BufMut
sample_buf = record {
  buf = 1 ∷ 2 ∷ 3 ∷ 0 ∷ 0 ∷ [];
  pos_write = 3;
  pos_read = 1;
  available = 3;
  dirty = true;
}

sample_buf-IsValid : IsValid sample_buf
sample_buf-IsValid = omega arith

seek_read_lem_example :
    BufMut.seek_read (current (negsuc 1)) sample_buf ≡ (err invalid_input, sample_buf)
seek_read_lem_example =
    seek_read_lem {b = sample_buf} (current (negsuc 1)) sample_buf-IsValid (omega arith)

abbrev calls : List Op
calls =
    writes (7 ∷ 8 ∷ 9 ∷ [])
    ∷ seeks_read (start 9)
    ∷ reads 2
    ∷ seeks_write (start 1)
    ∷ seeks_available (start 1)
    ∷ []

run-IsValid_example :
    IsValid (run calls (BufMut.new (0 ∷ 0 ∷ 0 ∷ 0 ∷ [])))
    × (length (run calls (BufMut.new (0 ∷ 0 ∷ 0 ∷ 0 ∷ []))).buf ≡ 4)
run-IsValid_example = run-IsValid calls (0 ∷ 0 ∷ 0 ∷ 0 ∷ []) (omega arith)
