-- ===== src/Crypto/Copy/Range.antt =====
-- `copy_from_file` copies exactly the range asked for, as far as the data goes.
use encryptedfs.Prelude.{
  ℕ, ◌+◌, ◌^◌, ◌<◌, ◌≡◌, true, List, ◌++◌, length, take, drop, ok, sym, ap, subst, [], append-nil,
  arith, length-take, length-drop, nil_of_length, take_none,
}
use encryptedfs.Io.File.{File}
use encryptedfs.Io.File
use encryptedfs.Io.Contract.{WriteAllFn, IsWriter}
use encryptedfs.Stream
use encryptedfs.Crypto.{Env, IsEnv}
use encryptedfs.Crypto.Read
use encryptedfs.Crypto.Format.{length-Sealed}
use encryptedfs.Crypto.Write.Finish.{Stores}
use encryptedfs.Crypto.Copy.{copy_from_file}
use encryptedfs.Crypto.Read.Ahead.{read_reads, Ahead}
use encryptedfs.Crypto.RoundTrip.{reader_at_start}
use encryptedfs.Stream.Copy.{copy_lem}
use encryptedfs.Stream.Skip.{seek_forward_lem}

module _ (e : Env) (key : List ℕ) (env : IsEnv e) {W : Type 0} {Written : W → List ℕ → Type 0}
    {Fits : List ℕ → Type 0} {write_all : WriteAllFn W} (writer : IsWriter Written Fits write_all)
    (buf_size pos len : ℕ) (room : 0 < buf_size) (small : pos + buf_size < 2 ^ 64) where
  -- With the laws of the AEAD, a writer that keeps its contract and can take the bytes, and
  -- positions below 2^64: with the flag to stop at the end, `copy_from_file` from a file that
  -- stores fewer than 2^63 bytes gives the writer exactly the stored bytes from `pos` on, `len` of
  -- them or as many as there are, and returns how many; it succeeds also where `pos` lies beyond
  -- the end, and gives nothing.
  pub copy_from_file_lem :
      {f : File} {stored before : List ℕ} (w : W)
      → 0 < f.burst
      → f.cursor ≡ 0
      → Stores e key stored f
      → length stored < 2 ^ 63
      → Written w before
      → Fits (before ++ take len (drop pos stored))
      → let (o, w') = copy_from_file e buf_size key write_all f pos len true w in
        (o ≡ ok (length (take len (drop pos stored))))
        × Written w' (before ++ take len (drop pos stored))
  unfolding copy_from_file File.stream_len
  copy_from_file_lem {f} {stored} {before} w burst at_start stores fits63 wr fits =
      let R = Read.RingCryptoRead in
      let at_0 : f ≡ record f { cursor = 0 } = λ i. record f { cursor = at_start i } in
      let start : Ahead e key (Read.new e f key) stored =
        subst (λ g. Ahead e key (Read.new e g key) stored) (sym at_0)
          (reader_at_start e key env burst stores fits63) in
      let reader = read_reads e key env in
      let skip =
        seek_forward_lem reader buf_size pos true room small (Read.new e f key) stored start in
      let moved : R = (Stream.seek_forward buf_size (Read.read e) pos true (Read.new e f key)).1 in
      let copied =
        copy_lem reader writer buf_size len true room (moved, w) (drop pos stored) before skip.1 wr
          fits in
      let no_len : len ≡ 0 → take len (drop pos stored) ≡ [] = take_none len (drop pos stored) in
      let no_data : length f.content ≡ 0 → length stored ≡ 0 = λ z. omega (
        arith,
        length-Sealed e key 0 stores.blocks f.content stores.sealed,
        ap length stores.whole,
      ) in
      ground (
        arith,
        skip.0,
        copied.0,
        copied.2,
        no_len,
        no_data,
        append-nil before,
        length-drop pos stored,
        length-take len (drop pos stored),
        nil_of_length (take len (drop pos stored)),
      )
