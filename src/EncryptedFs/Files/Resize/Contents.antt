-- ===== src/EncryptedFs/Files/Resize/Contents.antt =====
-- The contents after `set_len`: the data cut off, or filled up with zeros.
use encryptedfs.Prelude.{
  ℕ, ◌-◌, ◌^◌, ◌≤◌, ◌<◌, ◌≡◌, refl, sym, ap, ◌∙◌, subst, inl, inr, true, false, List, [], ◌++◌,
  append-nil, arith, ltb, Bool-cases, length, take, replicate, length-append, length-take, take_all,
  Result, ok,
}
use encryptedfs.Io.{IoError}
use encryptedfs.Stream
use encryptedfs.EncryptedFs.Files.Resize.{content_of, copy_contents, resize}
use encryptedfs.Crypto.{Env, IsEnv}
use encryptedfs.Crypto.Read
use encryptedfs.Crypto.Write
use encryptedfs.Io.File
use encryptedfs.Io.File.{File}
use encryptedfs.Crypto.Write.Holds.{new-Holds, HasRoom, Holds}
use encryptedfs.Crypto.Write.Finish.{finish_lem, HasRoom-le, Stores, ring-IsWriter}
use encryptedfs.Crypto.RoundTrip.{reader_at_start}
use encryptedfs.Crypto.Read.Ahead.{read_reads, Ahead}
use encryptedfs.Stream.Copy.{copy_exact_lem}
use encryptedfs.Stream.Fill.{fill_zeros_lem}

module _ (e : Env) (key : List ℕ) (env : IsEnv e) (buf_size quota burst : ℕ) (room : 0 < buf_size)
    (reads_some : 0 < burst) (small : quota < 2 ^ 63) where
  -- What `set_len` leaves of the data.
  abbrev pub resized : ℕ → List ℕ → List ℕ
  resized size stored = take size stored ++ replicate (size - length stored) 0

  -- The writer after the copy and the zeros.
  finished :
      (written : List ℕ) (w : Write.RingCryptoWrite)
      → Holds e quota key written w
      → HasRoom e quota (length written)
      → (f : File) × ((Write.finish e w).0 ≡ ok f) × Stores e key written f
  finished written w h fits =
      let (f, done, _, stores) = finish_lem e quota key env h fits in (f, done, stores)

  module _ (r : Read.RingCryptoRead) (w : Write.RingCryptoWrite) (stored : List ℕ) (size : ℕ)
      (ahead : Ahead e key r stored) (held : Holds e quota key [] w)
      (fits : HasRoom e quota (length (resized size stored))) where
    abbrev copy : ℕ → Result IoError (Unit {0}) × (Read.RingCryptoRead × Write.RingCryptoWrite)
    copy len = Stream.copy_exact buf_size (Read.read e) (Write.write_all e) len (r, w)

    copied :
        (len : ℕ)
        → len ≤ length stored
        → len ≤ size
        → ((copy len).0 ≡ ok tt) × Holds e quota key (take len stored) (copy len).1.1
    copied len le le_size =
        let fits' : HasRoom e quota (length (take len stored)) =
          HasRoom-le (length (take len stored)) (length (resized size stored))
            (omega (
              arith,
              length-take len stored,
              length-take size stored,
              length-append (take size stored) (replicate (size - length stored) 0),
            ))
            fits in
        let (done, _, held') =
          copy_exact_lem (read_reads e key env) (ring-IsWriter e quota key env small) buf_size len
            room (r, w) stored [] ahead held fits' in
        (ground (arith, done), held')

    abbrev filled : Result IoError (Unit {0}) × Write.RingCryptoWrite
    filled =
        Stream.fill_zeros buf_size (Write.write_all e) (size - length stored)
          (copy (length stored)).1.1

    run_longer :
        (f : File)
        → ltb (length stored) size ≡ true
        → (copy (length stored)).0 ≡ ok tt
        → filled.0 ≡ ok tt
        → (Write.finish e filled.1).0 ≡ ok f
        → (copy_contents e buf_size (length stored) size (r, w)).0 ≡ ok f
    unfolding copy_contents
    run_longer f longer done zeros ended = rw (longer, done, zeros) ended

    run_not_longer :
        (f : File)
        → ltb (length stored) size ≡ false
        → (copy size).0 ≡ ok tt
        → (Write.finish e (copy size).1.1).0 ≡ ok f
        → (copy_contents e buf_size (length stored) size (r, w)).0 ≡ ok f
    unfolding copy_contents
    run_not_longer f not_longer done ended = rw (not_longer, done) ended

    copy_contents_lem :
        (f : File) × ((copy_contents e buf_size (length stored) size (r, w)).0 ≡ ok f)
        × Stores e key (resized size stored) f
    copy_contents_lem = elim (Bool-cases (ltb (length stored) size)) [
      | inl longer ↦
          (let (done, held') = copied (length stored) (omega arith) (ground arith) in
            let all : take (length stored) stored ≡ take size stored =
              take_all (length stored) stored (omega arith)
              ∙ sym (take_all size stored (ground arith)) in
            let held'' : Holds e quota key (take size stored) (copy (length stored)).1.1 =
              subst (λ l. Holds e quota key l (copy (length stored)).1.1) all held' in
            let (zeros, held3) =
              fill_zeros_lem (ring-IsWriter e quota key env small) buf_size (size - length stored)
                room (copy (length stored)).1.1 (take size stored) held'' fits in
            let (f, ended, stores) = finished (resized size stored) _ held3 fits in
            (f, run_longer f longer done zeros ended, stores))
      | inr not_longer ↦
          (let (done, held') = copied size (ground arith) (omega arith) in
            let none_added : resized size stored ≡ take size stored =
              ap (λ n. take size stored ++ replicate n 0) {y = 0} (ground arith)
              ∙ append-nil (take size stored) in
            let held'' : Holds e quota key (resized size stored) (copy size).1.1 =
              subst (λ l. Holds e quota key l (copy size).1.1) (sym none_added) held' in
            let (f, ended, stores) = finished (resized size stored) (copy size).1.1 held'' fits in
            (f, run_not_longer f not_longer done ended, stores))
    ]

  -- With the laws of the AEAD, contents that store some data of less than 2^63 bytes, and room for
  -- the new contents below 2^63: `set_len`'s copy of the contents to a new file, with the length of
  -- the data as the old size, succeeds. The new file stores the first `size` bytes of the data, and
  -- zeros where the data was shorter.
  pub resize_lem :
      {f : File} {stored : List ℕ} (size : ℕ)
      → Stores e key stored f
      → length stored < 2 ^ 63
      → HasRoom e quota (length (resized size stored))
      → (f' : File) × (resize e buf_size key quota burst (length stored) size f.content
          ≡ ok f'.content)
        × Stores e key (resized size stored) f'
  unfolding resize File.open_file
  resize_lem {f} {stored} size stores fits63 fits =
      let open_f : File = record { content = f.content; cursor = 0; quota = 0; burst = burst } in
      let new_f : File = record { content = []; cursor = 0; quota = quota; burst = burst } in
      let opened : Stores e key stored open_f = record {
        blocks = stores.blocks;
        sealed = stores.sealed;
        cut = stores.cut;
        whole = stores.whole;
      } in
      let (f', copied, stored') =
        copy_contents_lem (Read.new e open_f key) (Write.new e new_f key) stored size
          (reader_at_start e key env {written = stored} {f = open_f} reads_some opened fits63)
          (new-Holds e quota key new_f env refl refl refl) fits in
      (f', ap content_of copied, stored')
