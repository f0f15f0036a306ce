-- ===== src/Tests/Streams.antt =====
-- The theorems on src/stream_util.rs over a file that gives two bytes at a time, with a buffer of
-- three bytes.
use encryptedfs.Stream.Fill.{fill_zeros_lem}
use encryptedfs.Prelude.{ℕ, ◌≡◌, refl, true, false, List, [], ◌∷◌, arith, ok}
use encryptedfs.Io.File.{File}
use encryptedfs.Io.File
use encryptedfs.Io.Kept.{FileAhead, FileWritten, file_reads, file_writes}
use encryptedfs.Stream
use encryptedfs.Stream.Skip.{seek_forward_lem}
use encryptedfs.Stream.Copy.{copy_lem, read_whole_lem}

abbrev bytes : List ℕ
bytes = 1 ∷ 2 ∷ 3 ∷ 4 ∷ 5 ∷ []

abbrev source : File
source = record { content = bytes; cursor = 0; quota = 0; burst = 2 }

abbrev target : File
target = record { content = 9 ∷ []; cursor = 1; quota = 50; burst = 1 }

source_ahead : FileAhead source bytes
source_ahead = record { burst = omega arith; split = refl }

target_written : FileWritten 50 target (9 ∷ [])
target_written = record { whole = refl; at_end = refl; same_quota = refl }

seek_forward_lem_example :
    let (r, f) = Stream.seek_forward 3 File.read 4 false source in (r ≡ ok 4) × FileAhead f (5 ∷ [])
seek_forward_lem_example =
    seek_forward_lem file_reads 3 4 false (omega arith) (omega arith) source bytes source_ahead

copy_lem_example :
    let (r, s) = Stream.copy 3 File.read File.write_all 7 true (source, target) in
    (r ≡ ok 5) × FileAhead s.0 [] × FileWritten 50 s.1 (9 ∷ 1 ∷ 2 ∷ 3 ∷ 4 ∷ 5 ∷ [])
copy_lem_example =
    copy_lem file_reads (file_writes 50) 3 7 true (omega arith) (source, target) bytes (9 ∷ [])
      source_ahead target_written (omega arith)

read_whole_lem_example :
    let (r, f) = Stream.read File.read 3 source in
    (r ≡ ok (1 ∷ 2 ∷ 3 ∷ [])) × FileAhead f (4 ∷ 5 ∷ [])
read_whole_lem_example = read_whole_lem file_reads 3 source bytes (omega arith) source_ahead

fill_zeros_lem_example :
    let (r, f) = Stream.fill_zeros 3 File.write_all 4 target in
    (r ≡ ok tt) × FileWritten 50 f (9 ∷ 0 ∷ 0 ∷ 0 ∷ 0 ∷ [])
fill_zeros_lem_example =
    fill_zeros_lem (file_writes 50) 3 4 (omega arith) target (9 ∷ []) target_written (omega arith)
