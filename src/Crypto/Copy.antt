-- ===== src/Crypto/Copy.antt =====
-- src/crypto.rs, `copy_from_file`: copies a range of an encrypted file to a writer. The file is given
-- as what `OpenOptions::open` would return at its start.
pub mod Range
use encryptedfs.Prelude.{
  ℕ, Bool, ◌||◌, List, ltb, ◌==◌, if◌then◌else◌, Exec, Result, continue, ok, err,
}
use encryptedfs.Io.{IoError, unexpected_eof}
use encryptedfs.Io.File.{File}
use encryptedfs.Io.File
use encryptedfs.Io.Contract.{WriteAllFn}
use encryptedfs.Stream
use encryptedfs.Crypto.{Env}
use encryptedfs.Crypto.Read

abbrev pub without_reader : {A R W : Type 0} → Result IoError A × (R × W) → Result IoError A × W
without_reader (o, (r, w)) = (o, w)

module _ (e : Env) (buf_size : ℕ) (key : List ℕ) {W : Type 0} (write_all : WriteAllFn W)
    (file : File) (pos len : ℕ) (stop_on_eof : Bool) where
  unfoldable pub copy_from_file : Exec IoError W ℕ
  copy_from_file w =
      let reader = Read.new e file key in
      let (skipped, reader') = Stream.seek_forward buf_size (Read.read e) pos stop_on_eof reader in
      let copied =
        without_reader
          (Stream.copy buf_size (Read.read e) write_all len stop_on_eof (reader', w)) in
      let from_here =
        continue skipped
          (λ pos2 w'.
            if ltb pos2 pos
            then (if stop_on_eof then (ok 0, w') else (err unexpected_eof, w'))
            else copied)
          w in
      if len == 0 || File.stream_len file == 0 then (ok 0, w) else from_here

  unfoldable pub copy_from_file_exact : Exec IoError W (Unit {0})
  copy_from_file_exact w =
      let (o, w') = copy_from_file w in (elim o [ ok n ↦ ok tt | err x ↦ err x ], w')
