-- ===== src/Io.antt =====
-- The parts of std::io that the code uses: error kinds, `SeekFrom`, and a file of bytes.
pub mod File
pub mod Contract
pub mod Kept
use encryptedfs.Prelude.{ℕ}
use encryptedfs.Prelude.Int.{ℤ}

-- The `io::ErrorKind`s that occur, and a panic (an index out of range, an `unwrap` of `None`).
-- `diverged` is no outcome of the code: a loop's fuel ran out.
pub data IoError : Type 0 where
  other invalid_input invalid_data unexpected_eof write_zero storage_full panicked diverged :
      IoError

pub data SeekFrom : Type 0 where
  start : ℕ → SeekFrom
  from_end : ℤ → SeekFrom
  current : ℤ → SeekFrom
