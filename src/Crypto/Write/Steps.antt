-- ===== src/Crypto/Write/Steps.antt =====
-- `flush` and `write` on a writer that holds some data: they succeed while the file has room,
-- `flush` keeps the data and `write` extends it.
use encryptedfs.Prelude.{
  ℕ, ◌^◌, ◌<◌, min, ◌≡◌, refl, sym, ap, ◌∙◌, subst, ◌≢◌, inl, inr, List, [], ◌∷◌, ◌++◌, append-nil,
  arith, ◌==◌, if◌then◌else◌, Bool-cases, length, take, flatten, length-append, length-take,
  take_none, ok, append_assoc, splice_end, ◌-◌,
}
use encryptedfs.BufMut
use encryptedfs.BufMut.{BufMut}
use encryptedfs.Crypto.{Env, IsEnv}
use encryptedfs.Crypto.Format.{AllFull-snoc}
use encryptedfs.Crypto.Write.{on_buf, encrypt_and_write, flush, write, RingCryptoWrite}
use encryptedfs.Crypto.Write.Seal.{append}
use encryptedfs.Crypto.Write.Holds.{
  index_next, encrypted, encrypted-Sealed, flatten-snoc, HasRoom, Holds,
}

module _ (e : Env) (quota : ℕ) (key : List ℕ) {written : List ℕ} {w : RingCryptoWrite}
    (env : IsEnv e) (h : Holds e quota key written w) (room : HasRoom e quota (length written))
    (small : quota < 2 ^ 63) where
  -- The writer once a full buffer has been sealed.
  full_block :
      w.buf.available ≡ e.block_size
      → let (r, w') = encrypt_and_write e w in
        (r ≡ ok tt) × Holds e quota key written w' × (w'.buf.available ≡ 0)
  full_block is_full =
      let E = encrypted e quota key env h room in
      let (no_bytes, no_write, no_read, clean) = E.buf_empty in
      let length_p : length (BufMut.as_ref w.buf) ≡ e.block_size =
        omega (arith, length-take w.buf.available w.buf.buf, h.buf_valid.available_le) in
      let nothing : BufMut.as_ref E.buf ≡ [] = take_none E.buf.available E.buf.buf no_bytes in
      subst (λ o. (o.0 ≡ ok tt) × Holds e quota key written o.1 × (o.1.buf.available ≡ 0))
        (sym E.outcome)
        (
          refl,
          record {
            blocks = h.blocks ++ BufMut.as_ref w.buf ∷ [];
            file = append E.block h.file;
            buf_valid = E.buf_valid;
            is_open = refl;
            at_end = omega (arith, h.at_end, length-append h.file.content E.block);
            same_quota = h.same_quota;
            same_key = h.same_key;
            sealed = encrypted-Sealed e quota key env h room;
            full = AllFull-snoc e.block_size h.blocks (BufMut.as_ref w.buf) h.full length_p;
            index = omega (
              arith,
              index_next e quota key env h room small,
              length-append h.blocks (BufMut.as_ref w.buf ∷ []),
            );
            split =
                flatten-snoc e quota key env h
                ∙ sym (append-nil (flatten (h.blocks ++ BufMut.as_ref w.buf ∷ [])))
                ∙ ap (λ l. flatten (h.blocks ++ BufMut.as_ref w.buf ∷ []) ++ l) (sym nothing);
            buf_len = E.buf_len ∙ h.buf_len;
            buf_pos = no_write ∙ sym no_bytes;
            buf_read = no_read;
            buf_dirty = ground arith;
          },
          no_bytes,
        )

  flush_full : w.buf.available ≡ e.block_size → flush e w ≡ encrypt_and_write e w
  unfolding flush
  flush_full is_full = ground (arith, h.is_open, h.buf_dirty, h.buf_pos, h.buf_len, env.block_pos)

  flush_partial : w.buf.available ≢ e.block_size → flush e w ≡ (ok tt, w)
  unfolding flush
  flush_partial not_full =
      ground (arith, h.is_open, h.buf_dirty, h.buf_pos, h.buf_len, h.buf_valid.available_le)

  -- With the laws of the AEAD, a quota below 2^63, and room for the block that the data makes,
  -- `flush` of a writer that holds some data succeeds and keeps the data: a full buffer is sealed,
  -- a partial one is left.
  pub flush-Holds :
      let (r, w') = flush e w in
      (r ≡ ok tt)
      × Holds e quota key written w'
      × (w'.buf.available ≡ (if w.buf.available == e.block_size then 0 else w.buf.available))
  flush-Holds = elim (Bool-cases (w.buf.available == e.block_size)) [
    | inl is_full ↦ rw (is_full, flush_full (ground arith)) (full_block (ground arith))
    | inr not_full ↦ rw (not_full, flush_partial (ground arith)) (refl, h, refl)
  ]

  -- What `write` does to a writer whose buffer has space.
  write_to_space :
      (src : List ℕ) → w.buf.available < e.block_size → write e src w ≡ on_buf (BufMut.write src) w
  unfolding write
  write_to_space src space = ground (arith, h.is_open, h.buf_dirty, h.buf_pos, h.buf_len)

  -- A full buffer is sealed first.
  write_to_full :
      (src : List ℕ) {w' : RingCryptoWrite}
      → w.buf.available ≡ e.block_size
      → encrypt_and_write e w ≡ (ok tt, w')
      → write e src w ≡ on_buf (BufMut.write src) w'
  unfolding write
  write_to_full src is_full done =
      rw (flush_full is_full, done)
        (ground (arith, h.is_open, h.buf_dirty, h.buf_pos, h.buf_len, env.block_pos))

  -- Bytes put behind those in the buffer extend the data.
  buf_write-Holds :
      (src : List ℕ)
      → let n = min (BufMut.remaining w.buf) (length src) in
        let (r, w') = on_buf (BufMut.write src) w in
        (r ≡ ok n) × Holds e quota key (written ++ take n src) w'
  buf_write-Holds src =
      let n : ℕ = min (BufMut.remaining w.buf) (length src) in
      let (result, bytes, pos_w, avail, pos_r, len, dirty) =
        BufMut.Cursor.write_lem src h.buf_valid in
      let there : w.buf.pos_write ≡ length (BufMut.as_ref w.buf) =
        omega (arith, length-take w.buf.available w.buf.buf, h.buf_valid.available_le, h.buf_pos) in
      (
        result,
        record {
          blocks = h.blocks;
          file = h.file;
          buf_valid = BufMut.Valid.write-IsValid src h.buf_valid;
          is_open = h.is_open;
          at_end = h.at_end;
          same_quota = h.same_quota;
          same_key = h.same_key;
          sealed = h.sealed;
          full = h.full;
          index = h.index;
          split =
              ap (λ l. l ++ take n src) h.split
              ∙ append_assoc (flatten h.blocks) (BufMut.as_ref w.buf) (take n src)
              ∙ ap (λ l. flatten h.blocks ++ l)
                  (sym
                    (bytes ∙ splice_end w.buf.pos_write (take n src) (BufMut.as_ref w.buf) there));
          buf_len = len ∙ h.buf_len;
          buf_pos = omega (arith, pos_w, avail, h.buf_pos);
          buf_read = pos_r ∙ h.buf_read;
          buf_dirty = ground (arith, dirty, h.buf_dirty, avail, h.buf_pos);
        },
      )

-- The space that a write finds: a full buffer is sealed and emptied first.
abbrev pub space : Env → RingCryptoWrite → ℕ
space e w = if w.buf.available == e.block_size then e.block_size else e.block_size - w.buf.available

module _ (e : Env) (quota : ℕ) (key : List ℕ) {written : List ℕ} {w : RingCryptoWrite}
    (env : IsEnv e) (h : Holds e quota key written w) (room : HasRoom e quota (length written))
    (small : quota < 2 ^ 63) where
  -- The writer whose buffer takes the bytes.
  ready :
      (src : List ℕ)
      → (w' : RingCryptoWrite) × Holds e quota key written w'
        × (BufMut.remaining w'.buf ≡ space e w)
        × (write e src w ≡ on_buf (BufMut.write src) w')
  ready src = elim (Bool-cases (w.buf.available == e.block_size)) [
    | inl is_full ↦
        (let E = encrypted e quota key env h room in
          let (done, h', empty) = full_block e quota key env h room small (ground arith) in
          (
            (encrypt_and_write e w).1,
            h',
            rw is_full (omega (arith, h'.buf_len, h'.buf_pos, empty)),
            write_to_full e quota key env h room small src (ground arith)
                (λ i. (done i, (encrypt_and_write e w).1)),
          ))
    | inr not_full ↦ (
      w,
      h,
      rw not_full (omega (arith, h.buf_len, h.buf_pos)),
      write_to_space e quota key env h room small src
          (ground (arith, h.buf_len, h.buf_valid.available_le)),
    )
  ]

  -- With the laws of the AEAD, a quota below 2^63, and room for the block that the data makes,
  -- `write` on a writer that holds some data takes what fits into the current block (a full one is
  -- sealed and emptied first), returns that count, and extends the data by those bytes.
  pub write-Holds :
      (src : List ℕ)
      → let (r, w') = write e src w in
        let n = min (space e w) (length src) in
        (r ≡ ok n) × Holds e quota key (written ++ take n src) w'
  write-Holds src =
      let (w', h', fits, run) = ready src in
      let n : ℕ = min (space e w) (length src) in
      subst
        (λ k.
          ((write e src w).0 ≡ ok (min k (length src)))
          × Holds e quota key (written ++ take (min k (length src)) src) (write e src w).1)
        fits
        (subst
          (λ o.
            (o.0 ≡ ok (min (BufMut.remaining w'.buf) (length src)))
            × Holds e quota key (written ++ take (min (BufMut.remaining w'.buf) (length src)) src)
                o.1)
          (sym run) (buf_write-Holds e quota key env h' room small src))
