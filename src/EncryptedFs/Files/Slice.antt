-- ===== src/EncryptedFs/Files/Slice.antt =====
-- `read` of an open file gives the bytes asked for, if its reader keeps the contract of a seekable
-- reader, which `RingCryptoRead` does.
use encryptedfs.Prelude.{
  ℕ, ◌^◌, ◌≤◌, ◌<◌, min, ◌≡◌, refl, ap, inl, inr, true, false, some, List, [], arith, leb, ◌==◌,
  if◌then◌else◌, Bool-cases, take, drop, Exec, ok,
}
use encryptedfs.Prelude.Assoc.{lookup, insert, lookup-insert}
use encryptedfs.Io.{IoError}
use encryptedfs.Stream
use encryptedfs.EncryptedFs.Inodes.{ReadHandleContext}
use encryptedfs.EncryptedFs.Tree.{exists, is_dir, is_file, file}
use encryptedfs.EncryptedFs.Files.{
  Streams, Opened, on_reader, is_read_handle, read_at, read, read_context,
}
use encryptedfs.Io.Contract.{IsReader}
use encryptedfs.Stream.Copy.{read_whole_lem}

-- Over the bytes of a file. `Stands s place`: a seek or a read may start here, at `place` of the data
-- `stored`. `Ahead` is the contract of `Read`. A seek reaches `last` at most, which may lie before the
-- end of the data.
pub record IsSeekReader {R W : Type 0} (streams : Streams R W) (bytes : List ℕ)
    (Stands : R → ℕ → Type 0) (Ahead : R → List ℕ → Type 0) (stored : List ℕ) (last : ℕ)
    : Type 0 where
  pub seeks :
      (n place : ℕ) (s : R)
      → n < 2 ^ 63
      → Stands s place
      → (s' : R) × (streams.seek_read bytes n s ≡ (ok (min n last), s')) × Stands s' (min n last)
  pub tells :
      (place : ℕ) (s : R)
      → place ≤ last
      → Stands s place
      → (s' : R) × (streams.read_position bytes s ≡ (ok place, s')) × Stands s' place
  pub ahead : (place : ℕ) (s : R) → Stands s place → Ahead s (drop place stored)
  pub reads : IsReader Ahead (streams.read_some bytes)

read_context_run :
    {R W : Type 0} (handle : ℕ) (s : Opened R W) (ctx : ReadHandleContext)
    → lookup handle s.fs.inodes.read_handles ≡ some ctx
    → read_context handle s ≡ (ok ctx, s)
unfolding read_context
read_context_run handle s ctx is_handle = ground (arith, is_handle)

on_reader_run :
    {R W A : Type 0} (handle ino : ℕ) (m : List ℕ → Exec IoError R A) (s : Opened R W)
    (bytes : List ℕ) (reader reader' : R) (a : A)
    → lookup ino s.fs.contents ≡ some (file bytes)
    → lookup handle s.readers ≡ some reader
    → (m bytes reader).0 ≡ ok a
    → (m bytes reader).1 ≡ reader'
    → on_reader handle ino m s ≡ (ok a, record s { readers = insert handle reader' s.readers })
unfolding on_reader
on_reader_run handle ino m s bytes reader reader' a content is_reader run moved =
    ground (arith, content, is_reader, run, moved)

module _ {R W : Type 0} {streams : Streams R W} {bytes : List ℕ} {Stands : R → ℕ → Type 0}
    {Ahead : R → List ℕ → Type 0} {stored : List ℕ} {last : ℕ}
    (contract : IsSeekReader streams bytes Stands Ahead stored last) where
  read_at_lem :
      (now ino offset n handle place : ℕ) (ctx : ReadHandleContext) (s : Opened R W) (reader : R)
      → lookup ino s.fs.contents ≡ some (file bytes)
      → lookup handle s.readers ≡ some reader
      → Stands reader place
      → 0 < n
      → offset < 2 ^ 63
      → (read_at streams now ino offset n handle ctx s).0
        ≡ ok (if leb offset last then take n (drop offset stored) else [])
  unfolding read_at
  read_at_lem now ino offset n handle place ctx s reader content is_reader stands pos_n small =
      let (r1, sought, stands1) = contract.seeks offset place reader small stands in
      let (r2, told, stands2) = contract.tells (min offset last) r1 (omega arith) stands1 in
      let filled =
        read_whole_lem contract.reads n r2 (drop (min offset last) stored) pos_n
          (contract.ahead (min offset last) r2 stands2) in
      let s1 : Opened R W = record s { readers = insert handle r1 s.readers } in
      let s2 : Opened R W = record s1 { readers = insert handle r2 s1.readers } in
      let at_1 : lookup handle s1.readers ≡ some r1 =
        ground (arith, lookup-insert handle handle r1 s.readers) in
      let at_2 : lookup handle s2.readers ≡ some r2 =
        ground (arith, lookup-insert handle handle r2 s1.readers) in
      let run1 =
        on_reader_run handle ino (λ b. streams.seek_read b offset) s bytes reader r1
          (min offset last) content is_reader (ap (λ o. o.0) sought) (ap (λ o. o.1) sought) in
      let run2 =
        on_reader_run handle ino streams.read_position s1 bytes r1 r2 (min offset last) content at_1
          (ap (λ o. o.0) told) (ap (λ o. o.1) told) in
      let run3 =
        on_reader_run handle ino (λ b. Stream.read (streams.read_some b) n) s2 bytes r2 _
          (take n (drop (min offset last) stored)) content at_2 filled.0 refl in
      rw run1 (
        rw run2 (elim (Bool-cases (leb offset last)) [
          | inl within ↦
              (let same : min offset last ≡ offset = ground arith in
                let here : (min offset last == offset) ≡ true = ground arith in
                rw (here, within) (rw run3 (ap (λ j. ok (take n (drop j stored))) same)))
          | inr beyond ↦
              (let here : (min offset last == offset) ≡ false = ground arith in rw (here, beyond))
        ]))

  -- For a regular file with contents `bytes`, a read handle of it with a reader that keeps the
  -- contract of a seekable reader over these bytes, and stands somewhere: `read` of `n` bytes, at
  -- least one, at an offset below 2^63 ends and returns the first `n` bytes of the data from the
  -- offset on, or as many as there are; beyond the last place that a seek reaches it returns none.
  pub read_lem :
      (now ino offset n handle place : ℕ) (s : Opened R W) (ctx : ReadHandleContext) (reader : R)
      → exists ino s.fs ≡ true
      → lookup ino s.fs.contents ≡ some (file bytes)
      → lookup handle s.fs.inodes.read_handles ≡ some ctx
      → ctx.ino ≡ ino
      → lookup handle s.readers ≡ some reader
      → Stands reader place
      → 0 < n
      → offset < 2 ^ 63
      → (read streams now ino offset n handle s).0
        ≡ ok (if leb offset last then take n (drop offset stored) else [])
  unfolding read
  read_lem now ino offset n handle place s ctx reader there content is_handle same_ino is_reader
        stands pos_n small =
      let none_else : (ctx.ino == ino) ≡ true = ground arith in
      let more : (n == 0) ≡ false = ground arith in
      let found =
        read_at_lem now ino offset n handle place ctx s reader content is_reader stands pos_n
          small in
      let is_f : is_file ino s.fs ≡ true = ground (arith, content) in
      let not_d : is_dir ino s.fs ≡ false = ground (arith, content) in
      let is_h : is_read_handle handle s ≡ true = ground (arith, is_handle) in
      let got = read_context_run handle s ctx is_handle in
      rw there (rw is_f (rw is_h (rw got (rw none_else (rw not_d (rw more found))))))
