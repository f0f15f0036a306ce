-- ===== src/Io/File.antt =====
-- std::fs::File, std::io::Cursor and the atomic-write file, as bytes with a cursor. `quota` is the
-- storage that the file may take, and `burst` the most that one call of `read` returns.
use encryptedfs.Prelude.{
  ℕ, ◌+◌, ◌-◌, ◌≤◌, min, ◌≡◌, ap, List, ◌++◌, append-nil, arith, leb, if◌then◌else◌, length, take,
  drop, replicate, take_all, drop_all, Exec, ok, err,
}
use encryptedfs.Io.{IoError, storage_full}

pub record File : Type 0 where
  pub content : List ℕ
  pub cursor : ℕ
  pub quota : ℕ
  pub burst : ℕ

-- A write at `i`, over what is there or beyond the end, where the gap reads as zeros.
abbrev pub write_at : ℕ → List ℕ → List ℕ → List ℕ
write_at i src xs = take i xs ++ (replicate (i - length xs) 0 ++ (src ++ drop (i + length src) xs))

unfoldable pub read : ℕ → Exec IoError File (List ℕ)
read n f =
    let bytes = take (min n f.burst) (drop f.cursor f.content) in
    (ok bytes, record f { cursor = f.cursor + length bytes })

-- What fits is written; if that is not all, the call fails.
unfoldable pub write_all : List ℕ → Exec IoError File Unit
write_all src f =
    let room = f.quota - f.cursor in
    if leb (length src) room
    then (
      ok tt,
      record f { content = write_at f.cursor src f.content; cursor = f.cursor + length src },
    )
    else (
      err storage_full,
      record f {
        content = write_at f.cursor (take room src) f.content;
        cursor = f.cursor + length (take room src);
      },
    )

unfoldable pub stream_len : File → ℕ
stream_len f = length f.content

unfoldable pub seek_to : ℕ → File → File
seek_to p f = record f { cursor = p }

-- A file opened for reading and writing.
unfoldable pub open_file : List ℕ → ℕ → ℕ → File
open_file content quota burst = record {
  content = content;
  cursor = 0;
  quota = quota;
  burst = burst;
}

-- Appending at the end of a file that has room.
pub write_all_at_end :
    (f : File) (src : List ℕ)
    → f.cursor ≡ length f.content
    → f.cursor + length src ≤ f.quota
    → write_all src f
      ≡ (ok tt, record f { content = f.content ++ src; cursor = f.cursor + length src })
unfolding write_all
write_all_at_end f src e h =
    let z : f.cursor - length f.content ≡ 0 = omega arith in
    ground (
      arith,
      z,
      take_all f.cursor f.content,
      drop_all (f.cursor + length src) f.content,
      append-nil src,
      ap (λ k. replicate {A = ℕ} k 0) z,
    )
