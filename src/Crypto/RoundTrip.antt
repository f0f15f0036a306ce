-- ===== src/Crypto/RoundTrip.antt =====
-- What a `RingCryptoWrite` has written, a `RingCryptoRead` gives back.
use encryptedfs.Prelude.{
  ℕ, ◌^◌, ◌<◌, ◌≡◌, sym, subst, none, List, [], ◌∷◌, ◌++◌, append-nil, append_assoc, length,
  flatten, Exec, ◌>>◌, ok, suc, ◌≤◌, refl, ap, ◌∙◌, arith, length-append,
}
use encryptedfs.Io.{IoError}
use encryptedfs.Io.File.{File}
use encryptedfs.Crypto.{Env, IsEnv}
use encryptedfs.Crypto.Write.{RingCryptoWrite}
use encryptedfs.Crypto.Write
use encryptedfs.Crypto.Write.Holds.{HasRoom, Holds, new-Holds}
use encryptedfs.Crypto.Write.Finish.{Stores, finish_lem, write_all_lem, HasRoom-le}
use encryptedfs.Crypto.Read.{RingCryptoRead}
use encryptedfs.Crypto.Read
use encryptedfs.Crypto.Read.Ahead.{Ahead, new-Ahead, read_reads}
use encryptedfs.Crypto.Format.{IsBlocks, IsBlocks-head, IsBlocks-tail}
use encryptedfs.Stream.ToEnd.{read_to_end, read_to_end_lem}

-- A client of the writer: `write_all` of each piece, in order, then `finish`.
unfoldable pub write_pieces : Env → List (List ℕ) → Exec IoError RingCryptoWrite File
write_pieces e [] = Write.finish e
write_pieces e (p ∷ ps) = do Write.write_all e p; write_pieces e ps

module _ (e : Env) (quota : ℕ) (key : List ℕ) (env : IsEnv e) (small : quota < 2 ^ 63) where
  write_pieces_from :
      (ps : List (List ℕ)) (w : RingCryptoWrite) (written : List ℕ)
      → Holds e quota key written w
      → HasRoom e quota (length (written ++ flatten ps))
      → (f : File) × ((write_pieces e ps w).0 ≡ ok f)
        × ((write_pieces e ps w).1.out ≡ none)
        × Stores e key (written ++ flatten ps) f
  unfolding write_pieces
  write_pieces_from [] w written h room =
      let same : written ++ [] ≡ written = append-nil written in
      let (f, done, gone, stores) =
        finish_lem e quota key env h (subst (λ l. HasRoom e quota (length l)) same room) in
      (f, done, gone, subst (λ l. Stores e key l f) (sym same) stores)
  write_pieces_from (p ∷ ps) w written h room =
      let same : written ++ (p ++ flatten ps) ≡ (written ++ p) ++ flatten ps =
        sym (append_assoc written p (flatten ps)) in
      let room' = subst (λ l. HasRoom e quota (length l)) same room in
      let (done, h') = write_all_lem e quota key env small p written w h (
        HasRoom-le (length (written ++ p)) (length ((written ++ p) ++ flatten ps))
          (omega (arith, length-append (written ++ p) (flatten ps))) room') in
      let (f, end, gone, stores) =
        write_pieces_from ps (Write.write_all e p w).1 (written ++ p) h' room' in
      let run : write_pieces e (p ∷ ps) w ≡ write_pieces e ps (Write.write_all e p w).1 =
        ground (arith, done) in
      (
        f,
        ap (λ o. o.0) run ∙ end,
        ap (λ o. o.1.out) run ∙ gone,
        subst (λ l. Stores e key l f) (sym same) stores,
      )

  -- Whatever pieces are written to an empty file with room for their blocks, every call succeeds,
  -- and `finish` gives up a file that stores exactly the pieces, one after the other.
  pub write_pieces_lem :
      (file : File) (ps : List (List ℕ))
      → file.content ≡ []
      → file.cursor ≡ 0
      → file.quota ≡ quota
      → HasRoom e quota (length (flatten ps))
      → (f : File) × ((write_pieces e ps (Write.new e file key)).0 ≡ ok f)
        × Stores e key (flatten ps) f
  write_pieces_lem file ps content cursor q room =
      let (f, done, gone, stores) =
        write_pieces_from ps (Write.new e file key) []
          (new-Holds e quota key file env content cursor q) room in
      (f, done, stores)

-- The blocks of a stored stream are no more than its bytes.
pub length-blocks-le :
    (size : ℕ) (ps : List (List ℕ)) → 0 < size → IsBlocks size ps → length ps ≤ length (flatten ps)
length-blocks-le size [] h c = omega arith
length-blocks-le size (p ∷ ps) h c = omega (
  arith,
  length-append p (flatten ps),
  (IsBlocks-head size p ps h c).0,
  length-blocks-le size ps h (IsBlocks-tail size p ps c),
)

module _ (e : Env) (key : List ℕ) (env : IsEnv e) {written : List ℕ} {f : File}
    (burst : 0 < f.burst) (stores : Stores e key written f) (small : length written < 2 ^ 63) where
  -- A new reader at the start of the file has the data ahead.
  pub reader_at_start : Ahead e key (Read.new e (record f { cursor = 0 }) key) written
  reader_at_start = subst (Ahead e key (Read.new e (record f { cursor = 0 }) key)) stores.whole (
      new-Ahead e key (record f { cursor = 0 }) stores.blocks env burst refl stores.sealed
        stores.cut
        (omega (
          arith,
          ap length stores.whole,
          length-blocks-le e.block_size stores.blocks env.block_pos stores.cut,
        )))

  -- Reading a stored file to its end, in pieces of any size, gives the data.
  pub read_to_end-Stores :
      (chunk : ℕ)
      → 0 < chunk
      → (read_to_end
          (Read.read e)
          chunk
          (suc (length written))
          []
          (Read.new e (record f { cursor = 0 }) key)).0
        ≡ ok written
  read_to_end-Stores chunk room =
      (read_to_end_lem (read_reads e key env) chunk room (suc (length written)) []
        (Read.new e (record f { cursor = 0 }) key) written reader_at_start (omega arith)).0

-- A file opened again, at its start.
abbrev pub reopen : File → ℕ → File
reopen f burst = record { content = f.content; cursor = 0; quota = 0; burst = burst }

pub Stores-reopen :
    (e : Env) (key written : List ℕ) (f : File) (burst : ℕ)
    → Stores e key written f
    → Stores e key written (reopen f burst)
Stores-reopen e key written f burst s = record {
  blocks = s.blocks;
  sealed = s.sealed;
  cut = s.cut;
  whole = s.whole;
}

-- With the laws of the AEAD, and fewer than 2^63 bytes: what is written through `RingCryptoWrite`
-- in any pieces to an empty file with a quota below 2^63 and room for it, and finished, is what
-- `RingCryptoRead` with the same key reads back from the file, in pieces of any size and with
-- single reads of the file as short as one byte. No call fails and every loop ends.
pub write_then_read :
    (e : Env) (key : List ℕ) (file : File) (ps : List (List ℕ)) (chunk burst : ℕ)
    → IsEnv e
    → file.content ≡ []
    → file.cursor ≡ 0
    → file.quota < 2 ^ 63
    → HasRoom e file.quota (length (flatten ps))
    → length (flatten ps) < 2 ^ 63
    → 0 < chunk
    → 0 < burst
    → (f : File) × ((write_pieces e ps (Write.new e file key)).0 ≡ ok f)
      × ((read_to_end
            (Read.read e)
            chunk
            (suc (length (flatten ps)))
            []
            (Read.new e (reopen f burst) key)).0
          ≡ ok (flatten ps))
write_then_read e key file ps chunk burst env content cursor small room fits some_chunk some_burst =
    let (f, done, stores) =
      write_pieces_lem e file.quota key env small file ps content cursor refl room in
    (
      f,
      done,
      read_to_end-Stores e key env some_burst (Stores-reopen e key (flatten ps) f burst stores) fits
          chunk some_chunk,
    )
