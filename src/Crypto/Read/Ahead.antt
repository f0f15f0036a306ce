-- ===== src/Crypto/Read/Ahead.antt =====
-- A reader over a stream keeps the contract of `Read`: it gives out the data of the blocks in order.
use encryptedfs.Prelude.{
  ℕ, ◌+◌, ◌^◌, ◌<◌, ◌≡◌, refl, sym, subst, some, List, ◌++◌, arith, length, take, drop, flatten,
  length-replicate, drop_none, ok, ap, ◌∙◌, ◌≢◌, [], append_assoc, length-take, nil_of_length,
  take-append-drop, ◌∷◌, take-nil, suc, inl, inr, ◌==◌, Bool-cases,
}
use encryptedfs.Io.File.{File}
use encryptedfs.BufMut
use encryptedfs.BufMut.{BufMut}
use encryptedfs.BufMut.Valid.{IsValid}
use encryptedfs.Crypto.{ciphertext_block_size, Env, IsEnv}
use encryptedfs.Crypto.Format.{
  Sealed, IsBlocks, IsBlocks-head, IsBlocks-tail, IsBlocks-whole, SealedBlock,
}
use encryptedfs.Crypto.Decrypt.Fill.{left}
use encryptedfs.Crypto.Read.{read_buf, new, RingCryptoRead, next_block, read, decrypter, put_back}
use encryptedfs.Io.Contract.{Reads, IsReader}
use encryptedfs.Crypto.Decrypt.{decrypt_block, Decrypter}
use encryptedfs.Crypto.Decrypt.Open.{decrypt_block_lem, decrypt_block-end, Opened}

module _ (e : Env) (key : List ℕ) where
  -- The reader `r` has `rest` ahead: what is left in its buffer, and the blocks that follow.
  pub record Ahead (r : RingCryptoRead) (rest : List ℕ) : Type 0 where
    pub file : File
    pub blocks : List (List ℕ)
    pub is_open : r.input ≡ some file
    pub burst : 0 < file.burst
    pub same_key : r.key ≡ key
    pub buf_valid : IsValid r.buf
    pub buf_len : length r.buf.buf ≡ ciphertext_block_size e
    pub sealed : Sealed e key r.block_index blocks (left file)
    pub cut : IsBlocks e.block_size blocks
    pub small : r.block_index + length blocks < 2 ^ 64
    pub split : rest ≡ BufMut.as_ref_read_available r.buf ++ flatten blocks

  pub new-Ahead :
      (f : File) (blocks : List (List ℕ))
      → IsEnv e
      → 0 < f.burst
      → f.cursor ≡ 0
      → Sealed e key 0 blocks f.content
      → IsBlocks e.block_size blocks
      → length blocks < 2 ^ 64
      → Ahead (new e f key) (flatten blocks)
  unfolding new BufMut.new
  new-Ahead f blocks env b at_start s cut small = record {
    file = f;
    blocks = blocks;
    is_open = refl;
    burst = b;
    same_key = refl;
    buf_valid = omega (arith, length-replicate {0} {A = ℕ} (ciphertext_block_size e) 0, env.small);
    buf_len = length-replicate (ciphertext_block_size e) 0;
    sealed = subst (λ l. Sealed e key 0 blocks l) (sym (drop_none f.cursor f.content at_start)) s;
    cut = cut;
    small = omega (arith, small);
    split = refl;
  }

  module _ {r : RingCryptoRead} {rest : List ℕ} (a : Ahead r rest) where
    abbrev unread : List ℕ
    unread = BufMut.as_ref_read_available r.buf

    -- Reading from a buffer that has unread bytes, or after the last block.
    from_buf : (n : ℕ) → 0 < n → (unread ≡ [] → rest ≡ []) → Reads Ahead n rest (read_buf n r)
    from_buf n pos_n ended =
        let (result, later, moved) = BufMut.Cursor.read_lem n a.buf_valid in
        record {
          bytes = take n unread;
          after = drop n unread ++ flatten a.blocks;
          result = result;
          split =
              a.split
              ∙ ap (λ l. l ++ flatten a.blocks) (sym (take-append-drop n unread))
              ∙ append_assoc (take n unread) (drop n unread) (flatten a.blocks);
          bound = omega (arith, length-take n unread);
          ended =
              λ z. ended (nil_of_length unread (omega (arith, ap length z, length-take n unread)));
          ahead = record {
            file = a.file;
            blocks = a.blocks;
            is_open = a.is_open;
            burst = a.burst;
            same_key = a.same_key;
            buf_valid = BufMut.Valid.read-IsValid n a.buf_valid;
            buf_len = ap (λ b. length b.buf) moved ∙ a.buf_len;
            sealed = a.sealed;
            cut = a.cut;
            small = a.small;
            split = ap (λ l. l ++ flatten a.blocks) (sym later);
          };
        }

    pub buffered : (n : ℕ) → 0 < n → unread ≢ [] → read e n r ≡ read_buf n r
    unfolding read
    buffered n pos_n some_bytes =
        let (result, later, moved) = BufMut.Cursor.read_lem n a.buf_valid in
        ground (arith, result, length-take n unread, nil_of_length unread)

    -- With nothing unread the next block comes first.
    pub unbuffered :
        (n : ℕ) {r' : RingCryptoRead}
        → unread ≡ []
        → next_block e r ≡ (ok tt, r')
        → read e n r ≡ read_buf n r'
    unfolding read
    unbuffered n empty next =
        let (result, later, moved) = BufMut.Cursor.read_lem n a.buf_valid in
        let nothing : take n unread ≡ [] = ap (take n) empty ∙ take-nil n in
        let same : (BufMut.read n r.buf).1 ≡ r.buf =
          moved
          ∙ ap (λ k. record r.buf { pos_read = k }) {x = r.buf.pos_read + length (take n unread)}
              (omega (arith, ap length nothing)) in
        rw (result, nothing, same, next)

  pub next_block_run :
      (r : RingCryptoRead) (f : File) {d : Decrypter}
      → r.input ≡ some f
      → decrypt_block e (decrypter f r) ≡ (ok tt, d)
      → next_block e r ≡ (ok tt, put_back d r)
  unfolding next_block
  next_block_run r f is_open run = ground (arith, is_open, run)

  -- The next block has become the unread bytes; there are none only at the end.
  abbrev Loaded : RingCryptoRead → List ℕ → Type 0
  Loaded r rest =
      (r' : RingCryptoRead) × (next_block e r ≡ (ok tt, r'))
      × Ahead r' rest
      × (BufMut.as_ref_read_available r'.buf ≡ [] → rest ≡ [])

  load :
      {r : RingCryptoRead} {rest : List ℕ}
      → IsEnv e
      → (a : Ahead r rest) → BufMut.as_ref_read_available r.buf ≡ []
      → (ps : List (List ℕ)) → a.blocks ≡ ps
      → Loaded r rest
  unfolding BufMut.clear
  load {r} {rest} env a empty [] z =
      let at_end : left a.file ≡ [] =
        subst (λ bs. Sealed e key r.block_index bs (left a.file)) z a.sealed in
      let rest_nil : rest ≡ [] = a.split ∙ ap (λ l. l ++ flatten a.blocks) empty ∙ ap flatten z in
      let d : Decrypter = record (decrypter a.file r) { buf = BufMut.clear r.buf } in
      (
        put_back d r,
        next_block_run r a.file a.is_open (decrypt_block-end e (decrypter a.file r) a.burst at_end),
        record {
          file = a.file;
          blocks = [];
          is_open = refl;
          burst = a.burst;
          same_key = a.same_key;
          buf_valid = BufMut.Valid.clear-IsValid a.buf_valid;
          buf_len = a.buf_len;
          sealed = at_end;
          cut = tt;
          small = omega (arith, a.small);
          split = rest_nil;
        },
        λ _. rest_nil,
      )
  load {r} {rest} env a empty (p ∷ ps) z =
      let (later, b, s) = subst (λ bs. Sealed e key r.block_index bs (left a.file)) z a.sealed in
      let cut : IsBlocks e.block_size (p ∷ ps) = subst (IsBlocks e.block_size) z a.cut in
      let (some_bytes, fits) = IsBlocks-head e.block_size p ps env.block_pos cut in
      let O : Opened e p later (decrypter a.file r) =
        decrypt_block_lem e (decrypter a.file r) p later a.buf_valid a.buf_len a.burst
          (subst (λ k. SealedBlock e k r.block_index p later (left a.file)) (sym a.same_key) b)
          some_bytes fits (IsBlocks-whole e key (suc r.block_index) p ps later cut s) in
      let count : length a.blocks ≡ suc (length ps) = ap length z in
      let index : O.next.block_index ≡ suc r.block_index = omega (arith, O.index, a.small, count) in
      (
        put_back O.next r,
        next_block_run r a.file a.is_open O.outcome,
        record {
          file = O.next.input;
          blocks = ps;
          is_open = refl;
          burst = rw O.same_burst a.burst;
          same_key = a.same_key;
          buf_valid = O.buf_valid;
          buf_len = O.buf_len ∙ a.buf_len;
          sealed =
              subst (λ l. Sealed e key O.next.block_index ps l) (sym O.input)
                (subst (λ i. Sealed e key i ps later) (sym index) s);
          cut = IsBlocks-tail e.block_size p ps cut;
          small = omega (arith, a.small, count, index);
          split =
              a.split
              ∙ ap (λ l. l ++ flatten a.blocks) empty
              ∙ ap flatten z
              ∙ ap (λ l. l ++ flatten ps) (sym O.plain);
        },
        λ nothing. absurd (omega (arith, some_bytes, ap length (sym O.plain ∙ nothing))),
      )

  -- With the AEAD's laws, a reader over a stream keeps the contract of `Read`: a read into a slice
  -- that is not empty returns the next bytes of the data, and none only at its end.
  pub read_reads : IsEnv e → IsReader Ahead (read e)
  read_reads env = record {
    reads = λ n r rest pos_n a. elim (Bool-cases (length (unread a) == 0)) [
      | inl none_left ↦
          (let empty = nil_of_length (unread a) (ground arith) in
            let (r', run, a', ended) = load env a empty a.blocks refl in
            subst (Reads Ahead n rest) (sym (unbuffered a n empty run)) (from_buf a' n pos_n ended))
      | inr some_left ↦
          (let some_bytes : unread a ≢ [] = λ z. ground (arith, z) in
            subst (Reads Ahead n rest) (sym (buffered a n pos_n some_bytes))
              (from_buf a n pos_n (λ z. absurd (some_bytes z))))
    ];
  }
