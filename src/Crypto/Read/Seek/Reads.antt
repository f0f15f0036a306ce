-- ===== src/Crypto/Read/Seek/Reads.antt =====
-- Reading and skipping inside one block, from before it or within it.
use encryptedfs.Prelude.{
  ℕ, ◌+◌, ◌≤◌, ◌<◌, ◌≡◌, sym, ap, ◌∙◌, subst, ◌≢◌, ◌⊎◌, inl, inr, List, [], ◌∷◌, ◌++◌, arith,
  length, take, drop, flatten, length-take, length-drop, take-append-drop, drop-length-take,
  drop-drop, ok,
}
use encryptedfs.Io.Contract.{Reads}
use encryptedfs.BufMut.Cursor.{read_lem}
use encryptedfs.Stream.Within.{IsSource}
use encryptedfs.Crypto.{Env, IsEnv}
use encryptedfs.Crypto.Format.{Sealed, IsBlocks, IsBlocks-tail, IsBlocks-drop}
use encryptedfs.Crypto.Decrypt.Fill.{left}
use encryptedfs.Crypto.Read.{RingCryptoRead, read, read_buf}
use encryptedfs.Crypto.Read.Ahead.{Ahead, buffered, unbuffered}
use encryptedfs.Crypto.Read.Seek.Place.{
  unread_bytes, Inside-le, unread-Inside, move-Inside, in_range, load-Before, Before, Inside,
}

module _ (e : Env) (key : List ℕ) (blocks : List (List ℕ)) where
  pub Before-Ahead :
      {k : ℕ} {r : RingCryptoRead}
      → Before e key blocks k r
      → k ≤ length blocks
      → Ahead e key r (flatten (drop k blocks))
  Before-Ahead {k} b lt = record {
    file = b.over.file;
    blocks = drop k blocks;
    is_open = b.over.is_open;
    burst = b.over.burst;
    same_key = b.over.same_key;
    buf_valid = b.over.buf_valid;
    buf_len = b.over.buf_len;
    sealed = subst (λ j. Sealed e key j (drop k blocks) (left b.over.file)) (sym b.index) b.sealed;
    cut = IsBlocks-drop e.block_size k blocks b.over.cut;
    small = omega (arith, b.index, b.over.few, length-drop k blocks);
    split = ap (λ l. l ++ flatten (drop k blocks)) (sym b.nothing);
  }

  pub Inside-Ahead :
      {k : ℕ} {p : List ℕ} {ps : List (List ℕ)} {o : ℕ} {r : RingCryptoRead}
      → Inside e key blocks k p ps o r
      → Ahead e key r (drop o p ++ flatten ps)
  Inside-Ahead {k} {p} {ps} {o} h = record {
    file = h.over.file;
    blocks = ps;
    is_open = h.over.is_open;
    burst = h.over.burst;
    same_key = h.over.same_key;
    buf_valid = h.over.buf_valid;
    buf_len = h.over.buf_len;
    sealed = subst (λ j. Sealed e key j ps (left h.over.file)) (sym h.index) h.sealed;
    cut =
        IsBlocks-tail e.block_size p ps
          (subst (IsBlocks e.block_size) h.here (IsBlocks-drop e.block_size k blocks h.over.cut));
    small = omega (arith, h.index, h.over.few, ap length h.here, length-drop k blocks);
    split = ap (λ l. l ++ flatten ps) (sym (unread-Inside e key blocks h));
  }

  module _ (k : ℕ) (p : List ℕ) (ps : List (List ℕ)) where
    -- `rest` is what is ahead of the reader in the k-th block.
    abbrev pub InBlock : RingCryptoRead → List ℕ → Type 0
    InBlock r rest =
        (Before e key blocks k r × (drop k blocks ≡ p ∷ ps) × (rest ≡ p))
        ⊎ ((o : ℕ) × Inside e key blocks k p ps o r × (rest ≡ drop o p))

    from_Inside :
        {o : ℕ} {r : RingCryptoRead} (n : ℕ)
        → Inside e key blocks k p ps o r
        → 0 < n
        → 0 < length (drop o p)
        → Reads InBlock n (drop o p) (read_buf n r)
    from_Inside {o} {r} n h pos_n some_bytes =
        let (result, later, moved) = read_lem n h.over.buf_valid in
        let here = unread-Inside e key blocks h in
        let bytes : List ℕ = take n (drop o p) in
        let same : take n (unread_bytes r) ≡ bytes = ap (take n) here in
        let o' : ℕ = o + length bytes in
        let fits : o' ≤ length p =
          omega (arith, length-take n (drop o p), length-drop o p, Inside-le e key blocks h) in
        let at : r.buf.pos_read + length (take n (unread_bytes r)) ≡ e.nonce_len + o' =
          omega (arith, h.pos, ap length same) in
        let drop_lem : drop (o + n) p ≡ drop o' p =
          sym (drop-drop n o p) ∙ drop-length-take n (drop o p) ∙ drop-drop (length bytes) o p in
        record {
          bytes = bytes;
          after = drop n (drop o p);
          result = result ∙ ap (λ l. ok l) same;
          split = sym (take-append-drop n (drop o p));
          bound = omega (arith, length-take n (drop o p));
          ended = λ z. absurd (omega (arith, ap length z, length-take n (drop o p)));
          ahead = inr (
            o',
            subst (λ b. Inside e key blocks k p ps o' (record r { buf = b })) (sym moved)
                (subst
                  (λ j.
                    Inside e key blocks k p ps o'
                      (record r { buf = record r.buf { pos_read = j } }))
                  (sym at) (move-Inside e key blocks h o' fits)),
            drop-drop n o p ∙ drop_lem,
          );
        }

    pub block-IsSource : IsEnv e → IsSource InBlock (read e)
    block-IsSource env = record {
      reads = λ n r rest pos_n some_bytes a. elim a [
        | inl (b, here, z) ↦
            (let (r', run, h) = load-Before e key blocks env b here in
              let at_start : rest ≡ drop 0 p = z in
              let lt = in_range e key blocks env b here in
              rw (at_start, unbuffered e key (Before-Ahead b (omega arith)) n b.nothing run)
                (from_Inside n h pos_n (omega (arith, some_bytes, ap length z))))
        | inr (o, h, z) ↦
            (let here = unread-Inside e key blocks h in
              let more : unread_bytes r ≢ [] =
                λ w. absurd (omega (arith, some_bytes, ap length z, ap length (sym here ∙ w))) in
              rw (z, buffered e key (Inside-Ahead h) n pos_n more)
                (from_Inside n h pos_n (omega (arith, some_bytes, ap length z))))
      ];
    }
