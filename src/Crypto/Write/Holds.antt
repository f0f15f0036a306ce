-- ===== src/Crypto/Write/Holds.antt =====
-- What a writer stands for: the data it was given, as full blocks in the file and the rest in the
-- buffer. Writing extends the data, and finishing leaves a stream of it in the file.
use encryptedfs.Prelude.{
  ℕ, ◌+◌, ◌*◌, ◌≤◌, ◌≡◌, refl, ap, some, List, [], ◌∷◌, ◌++◌, arith, ltb, length, flatten,
  length-append, length-take, length-replicate, ◌^◌, ◌<◌, zero, suc, ◌%◌, append-nil,
  flatten-append, subst,
}
use encryptedfs.Io.File.{File}
use encryptedfs.BufMut
use encryptedfs.BufMut.{BufMut}
use encryptedfs.BufMut.Valid.{IsValid}
use encryptedfs.Crypto.{ciphertext_block_size, Env, IsEnv}
use encryptedfs.Crypto.Format.{Sealed, length-Sealed, AllFull, Sealed-snoc, SealedBlock}
use encryptedfs.Crypto.Write.Seal.{encrypt_and_write_lem, Encrypted}
use encryptedfs.Crypto.Write.{RingCryptoWrite, new}

-- A quota that has room for every block that `n` bytes need.
pub record HasRoom (e : Env) (quota n : ℕ) : Type 0 where
  pub blocks : (k : ℕ) → k * e.block_size ≤ n → (k + 1) * ciphertext_block_size e ≤ quota

pub le-mul : (k b : ℕ) → 0 < b → k ≤ k * b
le-mul k zero h = absurd (omega arith)
le-mul k (suc b) h = omega arith

module _ (e : Env) (quota : ℕ) (key : List ℕ) where
  -- The writer `w` has been given `written`, not yet finished.
  pub record Holds (written : List ℕ) (w : RingCryptoWrite) : Type 0 where
    pub blocks : List (List ℕ)
    pub file : File
    pub buf_valid : IsValid w.buf
    pub is_open : w.out ≡ some file
    pub at_end : file.cursor ≡ length file.content
    pub same_quota : file.quota ≡ quota
    pub same_key : w.key ≡ key
    pub sealed : Sealed e key 0 blocks file.content
    pub full : AllFull e.block_size blocks
    pub index : w.block_index ≡ length blocks
    pub split : written ≡ flatten blocks ++ BufMut.as_ref w.buf
    pub buf_len : length w.buf.buf ≡ e.block_size
    pub buf_pos : w.buf.pos_write ≡ w.buf.available
    pub buf_read : w.buf.pos_read ≡ 0
    pub buf_dirty : w.buf.dirty ≡ ltb 0 w.buf.available

  pub new-Holds :
      (f : File)
      → IsEnv e
      → f.content ≡ []
      → f.cursor ≡ 0
      → f.quota ≡ quota
      → Holds [] (new e f key)
  unfolding new BufMut.new
  new-Holds f env c p q = record {
    blocks = [];
    file = f;
    buf_valid = omega (arith, length-replicate {0} {A = ℕ} e.block_size 0, env.small);
    is_open = refl;
    at_end = rw (c, p) refl;
    same_quota = q;
    same_key = refl;
    sealed = c;
    full = tt;
    index = refl;
    split = refl;
    buf_len = length-replicate e.block_size 0;
    buf_pos = refl;
    buf_read = refl;
    buf_dirty = refl;
  }

  -- The length of the file of a writer is that of its full blocks.
  length-full :
      (size : ℕ) (ps : List (List ℕ)) → AllFull size ps → length (flatten ps) ≡ length ps * size
  length-full size [] h = omega arith
  length-full size (p ∷ ps) (h, hs) =
      omega (arith, length-append p (flatten ps), length-full size ps hs)

  module _ {written : List ℕ} {w : RingCryptoWrite} (env : IsEnv e) (h : Holds written w) where
    pub length-written : length written ≡ length h.blocks * e.block_size + w.buf.available
    length-written = omega (
      arith,
      ap length h.split,
      length-append (flatten h.blocks) (BufMut.as_ref w.buf),
      length-full e.block_size h.blocks h.full,
      length-take w.buf.available w.buf.buf,
      h.buf_valid.available_le,
    )

    pub length-file : length h.file.content ≡ length h.blocks * ciphertext_block_size e
    length-file = omega (
      arith,
      length-Sealed e key 0 h.blocks h.file.content h.sealed,
      length-full e.block_size h.blocks h.full,
    )

    -- There is room for the block that the buffer makes, and its index does not wrap.
    room_for_block :
        HasRoom e quota (length written)
        → h.file.cursor + (e.nonce_len + w.buf.available + e.tag_len) ≤ h.file.quota
    room_for_block room = omega (
      arith,
      room.blocks (length h.blocks) (omega (arith, length-written)),
      length-file,
      h.at_end,
      h.same_quota,
      h.buf_valid.available_le,
      h.buf_len,
    )

    pub index_next :
        HasRoom e quota (length written)
        → quota < 2 ^ 63
        → (w.block_index + 1) % 2 ^ 64 ≡ length h.blocks + 1
    index_next room small =
        let k = length h.blocks in
        let step : (k + 1) * ciphertext_block_size e ≤ quota =
          room.blocks k (omega (arith, length-written)) in
        omega (
          arith,
          step,
          h.index,
          le-mul (k + 1) (ciphertext_block_size e) (omega (arith, env.block_pos)),
        )

    pub encrypted : HasRoom e quota (length written) → Encrypted e w h.file
    encrypted room =
        encrypt_and_write_lem e w h.file env h.buf_valid
          (omega (arith, h.buf_valid.available_le, h.buf_len)) h.is_open h.at_end
          (room_for_block room)

    block_key :
        {block : List ℕ}
        → SealedBlock e w.key w.block_index (BufMut.as_ref w.buf) [] block
        → SealedBlock e key (0 + length h.blocks) (BufMut.as_ref w.buf) [] block
    block_key {block} b =
        let z : w.block_index ≡ 0 + length h.blocks = omega (arith, h.index) in
        subst (λ k. SealedBlock e k (0 + length h.blocks) (BufMut.as_ref w.buf) [] block) h.same_key
          (subst (λ i. SealedBlock e w.key i (BufMut.as_ref w.buf) [] block) z b)

    -- The stream in the file once the buffer has been sealed.
    pub encrypted-Sealed :
        (room : HasRoom e quota (length written))
        → Sealed e key 0
            (h.blocks ++ BufMut.as_ref w.buf ∷ [])
            (h.file.content ++ (encrypted room).block)
    encrypted-Sealed room =
        Sealed-snoc e key 0 h.blocks (BufMut.as_ref w.buf) h.file.content (encrypted room).block
          h.sealed (block_key (encrypted room).sealed)

    pub flatten-snoc : written ≡ flatten (h.blocks ++ BufMut.as_ref w.buf ∷ [])
    flatten-snoc =
        rw (flatten-append h.blocks (BufMut.as_ref w.buf ∷ []), append-nil (BufMut.as_ref w.buf))
          h.split
