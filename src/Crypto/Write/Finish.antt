-- ===== src/Crypto/Write/Finish.antt =====
-- A whole run of the writer: `write_all` as often as one likes, then `finish`.
use encryptedfs.Io.Contract.{IsWriter}
use encryptedfs.Prelude.{
  ℕ, zero, suc, ◌^◌, ◌≤◌, ◌<◌, ◌≡◌, refl, sym, ap, ◌∙◌, subst, inl, inr, true, false, none, some,
  List, [], ◌∷◌, ◌++◌, append-nil, arith, ltb, Bool-cases, length, flatten, length-take, take_none,
  ok, min, append_assoc, take, drop, length-append, length-drop, take-append-drop,
}
use encryptedfs.Io.File.{File}
use encryptedfs.BufMut
use encryptedfs.BufMut.{BufMut}
use encryptedfs.Crypto.{Env, IsEnv}
use encryptedfs.Crypto.Format.{Sealed, IsBlocks, AllFull-IsBlocks, IsBlocks-snoc}
use encryptedfs.Crypto.Write.{
  is_finished, encrypt_and_write, take_out, finish, write_all_from, RingCryptoWrite, write,
  write_all,
}
use encryptedfs.Crypto.Write.Seal.{append}
use encryptedfs.Crypto.Write.Holds.{encrypted, encrypted-Sealed, flatten-snoc, HasRoom, Holds}
use encryptedfs.Crypto.Write.Steps.{space, write-Holds}

-- A file that holds `data` as a stream of full blocks and at most one shorter one at the end.
pub record Stores (e : Env) (key written : List ℕ) (f : File) : Type 0 where
  pub blocks : List (List ℕ)
  pub sealed : Sealed e key 0 blocks f.content
  pub cut : IsBlocks e.block_size blocks
  pub whole : flatten blocks ≡ written

finish_dirty :
    (e : Env) (w w' : RingCryptoWrite) (f : File)
    → w.buf.dirty ≡ true
    → is_finished w ≡ false
    → encrypt_and_write e w ≡ (ok tt, w')
    → w'.out ≡ some f
    → finish e w ≡ (ok f, record w' { out = none })
unfolding finish take_out
finish_dirty e w w' f dirty open_ done o = ground arith

finish_clean :
    (e : Env) (w : RingCryptoWrite) (f : File)
    → w.buf.dirty ≡ false
    → w.out ≡ some f
    → finish e w ≡ (ok f, record w { out = none })
unfolding finish take_out
finish_clean e w f clean o = ground arith

module _ (e : Env) (quota : ℕ) (key : List ℕ) {written : List ℕ} {w : RingCryptoWrite}
    (env : IsEnv e) (h : Holds e quota key written w)
    (room : HasRoom e quota (length written)) where
  length_p : length (BufMut.as_ref w.buf) ≡ w.buf.available
  length_p = omega (arith, length-take w.buf.available w.buf.buf, h.buf_valid.available_le)

  is_open : is_finished w ≡ false
  is_open = rw h.is_open

  -- With the laws of the AEAD and room for the block that the data makes, `finish` of a writer
  -- that holds some data succeeds and gives up the file, which stores exactly the data, and leaves
  -- a writer without a file.
  pub finish_lem :
      (f : File) × ((finish e w).0 ≡ ok f) × ((finish e w).1.out ≡ none) × Stores e key written f
  finish_lem = elim (Bool-cases (ltb 0 w.buf.available)) [
    | inl some_bytes ↦
        (let E = encrypted e quota key env h room in
          let run =
            finish_dirty e w (encrypt_and_write e w).1 (append E.block h.file)
              (h.buf_dirty ∙ some_bytes) is_open
              (λ i. ((ap (λ o. o.0) E.outcome) i, (encrypt_and_write e w).1))
              (ap (λ o. o.1.out) E.outcome) in
          (
            append E.block h.file,
            ap (λ o. o.0) run,
            ap (λ o. o.1.out) run,
            record {
              blocks = h.blocks ++ BufMut.as_ref w.buf ∷ [];
              sealed = encrypted-Sealed e quota key env h room;
              cut =
                  IsBlocks-snoc e.block_size h.blocks (BufMut.as_ref w.buf) h.full
                    (ground (arith, length_p))
                    (omega (arith, length_p, h.buf_valid.available_le, h.buf_len));
              whole = sym (flatten-snoc e quota key env h);
            },
          ))
    | inr no_bytes ↦
        (let run = finish_clean e w h.file (h.buf_dirty ∙ no_bytes) h.is_open in
          (
            h.file,
            ap (λ o. o.0) run,
            ap (λ o. o.1.out) run,
            record {
              blocks = h.blocks;
              sealed = h.sealed;
              cut = AllFull-IsBlocks e.block_size h.blocks env.block_pos h.full;
              whole = sym (
                  h.split
                  ∙ ap (λ l. flatten h.blocks ++ l)
                      (take_none w.buf.available w.buf.buf (ground arith))
                  ∙ append-nil (flatten h.blocks));
            },
          ))
  ]

-- Room for more bytes is room for fewer.
pub HasRoom-le : {e : Env} {quota : ℕ} (m n : ℕ) → m ≤ n → HasRoom e quota n → HasRoom e quota m
HasRoom-le m n h room = record { blocks = λ k l. room.blocks k (omega arith) }

module _ (e : Env) (quota : ℕ) (key : List ℕ) (env : IsEnv e) (small : quota < 2 ^ 63) where
  write_all_from_lem :
      (fuel : ℕ) (src written : List ℕ) (w : RingCryptoWrite)
      → length src < fuel
      → Holds e quota key written w
      → HasRoom e quota (length (written ++ src))
      → let (r, w') = write_all_from e fuel src w in
        (r ≡ ok tt) × Holds e quota key (written ++ src) w'
  unfolding write_all_from
  write_all_from_lem zero src written w lt h room = absurd (omega arith)
  write_all_from_lem (suc fuel) [] written w lt h room =
      (refl, subst (λ l. Holds e quota key l w) (sym (append-nil written)) h)
  write_all_from_lem (suc fuel) (x ∷ xs) written w lt h room =
      let src : List ℕ = x ∷ xs in
      let room' : HasRoom e quota (length written) =
        HasRoom-le (length written) (length (written ++ src))
          (omega (arith, length-append written src)) room in
      let n : ℕ = min (space e w) (length src) in
      let n_pos : 0 < n = ground (arith, h.buf_len, h.buf_valid.available_le, env.block_pos) in
      let (r, h') = write-Holds e quota key env h room' small src in
      let w' : RingCryptoWrite = (write e src w).1 in
      let joined : (written ++ take n src) ++ drop n src ≡ written ++ src =
        append_assoc written (take n src) (drop n src)
        ∙ ap (λ l. written ++ l) (take-append-drop n src) in
      let ih : ((write_all_from e fuel (drop n src) w').0 ≡ ok tt)
          × Holds e quota key (written ++ src) (write_all_from e fuel (drop n src) w').1 =
        subst
          (λ l.
            ((write_all_from e fuel (drop n src) w').0 ≡ ok tt)
            × Holds e quota key l (write_all_from e fuel (drop n src) w').1)
          joined
          (write_all_from_lem fuel (drop n src) (written ++ take n src) w'
            (omega (arith, length-drop n src)) h'
            (subst (λ l. HasRoom e quota (length l)) (sym joined) room)) in
      let run : write_all_from e (suc fuel) src w ≡ write_all_from e fuel (drop n src) w' =
        ground (arith, r, n_pos) in
      subst (λ o. (o.0 ≡ ok tt) × Holds e quota key (written ++ src) o.1) (sym run) ih

  -- With the laws of the AEAD, a quota below 2^63, and room for the blocks of the data before and
  -- after, `write_all` on a writer that holds some data ends, takes all the bytes, and extends the
  -- data by them.
  pub write_all_lem :
      (src written : List ℕ) (w : RingCryptoWrite)
      → Holds e quota key written w
      → HasRoom e quota (length (written ++ src))
      → let (r, w') = write_all e src w in (r ≡ ok tt) × Holds e quota key (written ++ src) w'
  unfolding write_all
  write_all_lem src written w = write_all_from_lem (suc (length src)) src written w (omega arith)

-- A `RingCryptoWrite` keeps the contract of a writer, as far as its file has room.
pub ring-IsWriter :
    (e : Env) (quota : ℕ) (key : List ℕ)
    → IsEnv e
    → quota < 2 ^ 63
    → IsWriter
        (λ w written. Holds e quota key written w)
        (λ written. HasRoom e quota (length written))
        (write_all e)
ring-IsWriter e quota key env small = record {
  writes = λ src w before h room. write_all_lem e quota key env small src before w h room;
  prefix = λ xs ys room.
      HasRoom-le (length xs) (length (xs ++ ys)) (omega (arith, length-append xs ys)) room;
}
