-- ===== src/Stream.antt =====
-- src/stream_util.rs: loops over any reader and writer. `buf_size` is the constant BUF_SIZE, which
-- is 256 KB in tests and 1 MB otherwise. A loop's fuel is the number of bytes asked for, plus one.
pub mod Skip
pub mod Within
pub mod Copy
pub mod Fill
pub mod ToEnd
use encryptedfs.Prelude.{
  ℕ, zero, suc, ◌+◌, ◌-◌, ◌%◌, ◌^◌, Bool, false, ltb, ◌==◌, if◌then◌else◌, length, Exec, pure,
  raise, ok, err, ◌>>=◌, ◌>>◌, min, List, [], ◌++◌, replicate,
}
use encryptedfs.Io.{IoError, unexpected_eof, diverged}
use encryptedfs.Io.Contract.{ReadFn, WriteAllFn}

module _ (buf_size : ℕ) {S : Type 0} (read : ReadFn S) (len : ℕ) (stop_on_eof : Bool) where
  -- The loop of `seek_forward` at `pos`.
  unfoldable pub seek_forward_from : ℕ → ℕ → Exec IoError S ℕ
  seek_forward_from zero pos s = (err diverged, s)
  seek_forward_from (suc fuel) pos s =
      let read_len = if ltb len ((pos + buf_size) % 2 ^ 64) then len - pos else buf_size in
      let round = do
        bytes ← read read_len
        let pos' = pos + length bytes
        let again = seek_forward_from fuel pos'
        if pos' == len
            then pure pos'
            else if length bytes == 0
            then (if stop_on_eof then pure pos' else raise unexpected_eof)
            else again
      in if read_len == 0 then (ok pos, s) else round s

  unfoldable pub seek_forward : Exec IoError S ℕ
  seek_forward s = if len == 0 then (ok 0, s) else seek_forward_from (suc len) 0 s

-- `seek_forward_exact` fails at an early end and drops the count.
unfoldable pub seek_forward_exact : ℕ → {S : Type 0} → ReadFn S → ℕ → Exec IoError S (Unit {0})
seek_forward_exact buf_size read len = do _ ← seek_forward buf_size read len false; pure tt

module _ (buf_size : ℕ) {R W : Type 0} (read : ReadFn R) (write_all : WriteAllFn W) (len : ℕ)
    (stop_on_eof : Bool) where
  -- One call on the reader, or on the writer, of a pair of them.
  abbrev from_reader : ℕ → Exec IoError (R × W) (List ℕ)
  from_reader n (r, w) = let (o, r') = read n r in (o, (r', w))

  abbrev to_writer : List ℕ → Exec IoError (R × W) (Unit {0})
  to_writer src (r, w) = let (o, w') = write_all src w in (o, (r, w'))

  -- The loop of `copy` at `read_pos`.
  unfoldable pub copy_from : ℕ → ℕ → Exec IoError (R × W) ℕ
  copy_from zero read_pos = raise diverged
  copy_from (suc fuel) read_pos = do
    bytes ← from_reader (min buf_size (len - read_pos))
    to_writer bytes
    let read_pos' = read_pos + length bytes
    let again = copy_from fuel read_pos'
    if read_pos' == len
        then pure read_pos'
        else if length bytes == 0
        then (if stop_on_eof then pure read_pos' else raise unexpected_eof)
        else again

  unfoldable pub copy : Exec IoError (R × W) ℕ
  copy s = if len == 0 then (ok 0, s) else copy_from (suc len) 0 s

-- `copy_exact`, likewise.
unfoldable pub copy_exact :
    ℕ → {R W : Type 0} → ReadFn R → WriteAllFn W → ℕ → Exec IoError (R × W) (Unit {0})
copy_exact buf_size read write_all len = do _ ← copy buf_size read write_all len false; pure tt

module _ (buf_size : ℕ) {W : Type 0} (write_all : WriteAllFn W) (len : ℕ) where
  -- The loop of `fill_zeros` at `written`.
  unfoldable pub fill_zeros_from : ℕ → ℕ → Exec IoError W (Unit {0})
  fill_zeros_from zero written = raise diverged
  fill_zeros_from (suc fuel) written = do
    let buf_len = min buf_size (len - written)
    write_all (replicate buf_len 0)
    let again = fill_zeros_from fuel (written + buf_len)
    if written + buf_len == len then pure tt else again

  unfoldable pub fill_zeros : Exec IoError W (Unit {0})
  fill_zeros w = if len == 0 then (ok tt, w) else fill_zeros_from (suc len) 0 w

module _ {R : Type 0} (reader : ReadFn R) (len : ℕ) where
  -- The loop of `read` with the bytes got so far; `len` is the length of the caller's slice.
  unfoldable pub read_from : ℕ → List ℕ → Exec IoError R (List ℕ)
  read_from zero got = raise diverged
  read_from (suc fuel) got = do
    bytes ← reader (len - length got)
    let got' = got ++ bytes
    let again = read_from fuel got'
    if length bytes == 0 then pure got else if length got' == len then pure got' else again

  unfoldable pub read : Exec IoError R (List ℕ)
  read = read_from (suc len) []
