-- ===== src/Crypto/Read/Seek/Place.antt =====
-- Where a reader of a stream of blocks stands: before a block, with nothing unread, or within a
-- block that is loaded.
use encryptedfs.Prelude.{
  ℕ, suc, ◌+◌, ◌-◌, ◌^◌, ◌≤◌, ◌<◌, ◌≡◌, refl, sym, ap, ◌∙◌, subst, some, List, [], ◌∷◌, arith,
  length, take, drop, length-drop, drop-drop, drop-take, ok,
}
use encryptedfs.Io.File.{File}
use encryptedfs.BufMut
use encryptedfs.BufMut.{BufMut}
use encryptedfs.BufMut.Valid.{IsValid}
use encryptedfs.BufMut.Cursor.{length-unread}
use encryptedfs.Crypto.{ciphertext_block_size, Env, IsEnv}
use encryptedfs.Crypto.Format.{
  Sealed, IsBlocks, IsBlocks-head, IsBlocks-drop, IsBlocks-whole, SealedBlock,
}
use encryptedfs.Crypto.Decrypt.Fill.{left}
use encryptedfs.Crypto.Decrypt.Open.{decrypt_block_lem, Opened}
use encryptedfs.Crypto.Read.{RingCryptoRead, next_block, decrypter, put_back}
use encryptedfs.Crypto.Read.Ahead.{next_block_run}

abbrev pub unread_bytes : RingCryptoRead → List ℕ
unread_bytes r = BufMut.as_ref_read_available r.buf

module _ (e : Env) (key : List ℕ) (blocks : List (List ℕ)) where
  -- The reader is over a file of the sealed blocks.
  pub record Over (r : RingCryptoRead) : Type 0 where
    pub file : File
    pub is_open : r.input ≡ some file
    pub burst : 0 < file.burst
    pub same_key : r.key ≡ key
    pub buf_valid : IsValid r.buf
    pub buf_len : length r.buf.buf ≡ ciphertext_block_size e
    pub whole : Sealed e key 0 blocks file.content
    pub cut : IsBlocks e.block_size blocks
    pub small : length file.content < 2 ^ 63
    pub few : length blocks < 2 ^ 63

  pub record Before (k : ℕ) (r : RingCryptoRead) : Type 0 where
    pub over : Over r
    pub index : r.block_index ≡ k
    pub sealed : Sealed e key k (drop k blocks) (left over.file)
    pub nothing : unread_bytes r ≡ []

  -- The reader stands `o` bytes into the k-th block `p`, which `ps` follow.
  pub record Inside (k : ℕ) (p : List ℕ) (ps : List (List ℕ)) (o : ℕ) (r : RingCryptoRead)
      : Type 0 where
    pub over : Over r
    pub here : drop k blocks ≡ p ∷ ps
    pub index : r.block_index ≡ suc k
    pub sealed : Sealed e key (suc k) ps (left over.file)
    pub pos : r.buf.pos_read ≡ e.nonce_len + o
    pub available : r.buf.available ≡ e.nonce_len + length p
    pub plain : take (length p) (drop e.nonce_len r.buf.buf) ≡ p

  module _ {k : ℕ} {p : List ℕ} {ps : List (List ℕ)} {o : ℕ} {r : RingCryptoRead}
      (h : Inside k p ps o r) where
    pub Inside-le : o ≤ length p
    Inside-le = omega (arith, h.over.buf_valid.read_le, h.pos, h.available)

    -- What is unread is what follows in the block.
    pub unread-Inside : unread_bytes r ≡ drop o p
    unread-Inside =
        let n : ℕ = r.buf.available - r.buf.pos_read in
        let len : n ≡ length p - o = omega (arith, h.pos, h.available) in
        ap (λ j. take n (drop j r.buf.buf)) h.pos
        ∙ ap (λ l. take n l) (sym (drop-drop o e.nonce_len r.buf.buf))
        ∙ ap (λ j. take j (drop o (drop e.nonce_len r.buf.buf))) len
        ∙ sym (drop-take o (length p) (drop e.nonce_len r.buf.buf))
        ∙ ap (drop o) h.plain

    -- The reader with its read position moved inside the block.
    pub move-Inside :
        (o' : ℕ)
        → o' ≤ length p
        → Inside k p ps o' (record r { buf = record r.buf { pos_read = e.nonce_len + o' } })
    move-Inside o' le = record {
      over = record {
        file = h.over.file;
        is_open = h.over.is_open;
        burst = h.over.burst;
        same_key = h.over.same_key;
        buf_valid = omega (
          arith, h.over.buf_valid.write_le, h.over.buf_valid.available_le, h.over.buf_valid.small,
          h.available,
        );
        buf_len = h.over.buf_len;
        whole = h.over.whole;
        cut = h.over.cut;
        small = h.over.small;
        few = h.over.few;
      };
      here = h.here;
      index = h.index;
      sealed = h.sealed;
      pos = refl;
      available = h.available;
      plain = h.plain;
    }

  module _ (env : IsEnv e) {k : ℕ} {p : List ℕ} {ps : List (List ℕ)} {r : RingCryptoRead}
      (b : Before k r) (here : drop k blocks ≡ p ∷ ps) where
    pub in_range : k < length blocks
    in_range = omega (arith, ap length here, length-drop k blocks)

    cut_here : IsBlocks e.block_size (p ∷ ps)
    cut_here = subst (IsBlocks e.block_size) here (IsBlocks-drop e.block_size k blocks b.over.cut)

    -- The next block is loaded, and the reader stands at its start.
    pub load-Before : (r' : RingCryptoRead) × (next_block e r ≡ (ok tt, r')) × Inside k p ps 0 r'
    load-Before =
        let over = b.over in
        let f : File = over.file in
        let (later, sealed, s) = subst (λ bs. Sealed e key k bs (left f)) here b.sealed in
        let (some_bytes, fits) = IsBlocks-head e.block_size p ps env.block_pos cut_here in
        let O : Opened e p later (decrypter f r) =
          decrypt_block_lem e (decrypter f r) p later over.buf_valid over.buf_len over.burst
            (subst (λ j. SealedBlock e j r.block_index p later (left f)) (sym over.same_key)
              (subst (λ j. SealedBlock e key j p later (left f)) (sym b.index) sealed))
            some_bytes fits (IsBlocks-whole e key (suc k) p ps later cut_here s) in
        let long : O.next.buf.available ≡ e.nonce_len + length p =
          omega (
            arith,
            length-unread O.buf_valid,
            ap length O.plain,
            O.position,
            O.buf_valid.read_le,
          ) in
        (
          put_back O.next r,
          next_block_run e key r f over.is_open O.outcome,
          record {
            over = record {
              file = O.next.input;
              is_open = refl;
              burst = rw O.same_burst over.burst;
              same_key = over.same_key;
              buf_valid = O.buf_valid;
              buf_len = O.buf_len ∙ over.buf_len;
              whole = rw O.same_content over.whole;
              cut = over.cut;
              small = rw O.same_content over.small;
              few = over.few;
            };
            here = here;
            index = omega (arith, O.index, b.index, in_range, over.few);
            sealed = subst (λ l. Sealed e key (suc k) ps l) (sym O.input) s;
            pos = omega (arith, O.position);
            available = long;
            plain =
                (let at_nonce : O.next.buf.available - O.next.buf.pos_read ≡ length p =
                    omega (arith, long, O.position) in
                  ap (λ j. take (length p) (drop j O.next.buf.buf)) (sym O.position)
                  ∙ ap (λ j. take j (drop O.next.buf.pos_read O.next.buf.buf)) (sym at_nonce)
                  ∙ O.plain);
          },
        )
