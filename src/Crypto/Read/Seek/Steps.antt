-- ===== src/Crypto/Read/Seek/Steps.antt =====
-- The moves of `seek`: a skip inside a block, a change of block, and a move inside the buffer.
use encryptedfs.Prelude.{
  ℕ, suc, ◌+◌, ◌*◌, ◌/◌, ◌%◌, ◌^◌, ◌≤◌, ◌<◌, ◌≡◌, refl, sym, ap, ◌∙◌, subst, inl, inr, true, some,
  List, ◌∷◌, arith, ◌==◌, Bool-cases, length, drop, flatten, length-append, length-drop, drop_all,
  drop-drop, Exec, ok,
}
use encryptedfs.Io.{IoError}
use encryptedfs.Io.File
use encryptedfs.Io.File.{File}
use encryptedfs.BufMut
use encryptedfs.BufMut.{BufMut}
use encryptedfs.BufMut.Valid.{clear-IsValid}
use encryptedfs.Stream
use encryptedfs.Stream.Within.{seek_forward-within}
use encryptedfs.Crypto.{ciphertext_block_size, Env, IsEnv}
use encryptedfs.Crypto.Format.{Sealed, length-Sealed, IsBlocks, IsBlocks-head, IsBlocks-drop}
use encryptedfs.Crypto.Decrypt.Fill.{left}
use encryptedfs.Crypto.Read.{RingCryptoRead}
use encryptedfs.Crypto.Read.Seek.{skip, change_block}
use encryptedfs.Crypto.Read.Seek.Place.{Inside-le, unread-Inside, load-Before, Over, Before, Inside}
use encryptedfs.Crypto.Read.Seek.Reads.{block-IsSource}
use encryptedfs.Crypto.Read.Seek.Locate.{Sealed-drop}

module _ (e : Env) (key : List ℕ) (blocks : List (List ℕ)) (env : IsEnv e) (buf_size : ℕ)
    (room : 0 < buf_size) (small : e.block_size + buf_size < 2 ^ 64) where
  -- The reader goes on to `o` bytes into the k-th block, after a call with the result `ok a`.
  abbrev pub Moves :
      {A : Type 0} → A → ℕ → ℕ → (Exec IoError RingCryptoRead A) → RingCryptoRead → Type 0
  Moves a k o m r =
      (r' : RingCryptoRead) × (m r ≡ (ok a, r'))
      × (p : List ℕ) × (ps : List (List ℕ)) × Inside e key blocks k p ps o r'

  -- From before a block, into it.
  pub skip-Before :
      (k o : ℕ) (p : List ℕ) (ps : List (List ℕ)) (r : RingCryptoRead)
      → Before e key blocks k r
      → drop k blocks ≡ p ∷ ps
      → 0 < o
      → o ≤ length p
      → o ≤ e.block_size
      → Moves o k o (skip e buf_size o) r
  skip-Before k o p ps r b here pos_o le fits =
      let source = block-IsSource e key blocks k p ps env in
      let (outcome, ahead) =
        seek_forward-within source buf_size o true room (omega arith) r p (inl (b, here, refl))
          le in
      (
        (skip e buf_size o r).1,
        ground (arith, outcome),
        p,
        ps,
        elim ahead [
          | inl (b', here', z) ↦ absurd (omega (arith, ap length z, length-drop o p))
          | inr (o', h, z) ↦
              (let same : o' ≡ o = omega (
                arith,
                ap length z,
                length-drop o p,
                length-drop o' p,
                Inside-le e key blocks h,
              ) in
                subst (λ j. Inside e key blocks k p ps j (skip e buf_size o r).1) same h)
        ],
      )

  skip-none : (o : ℕ) (r : RingCryptoRead) → o ≡ 0 → skip e buf_size o r ≡ (ok o, r)
  unfolding Stream.seek_forward
  skip-none o r z = ground arith

  -- At the end of a full block, the reader stands before the next one.
  pub Inside-end :
      {k : ℕ} {p : List ℕ} {ps : List (List ℕ)} {r : RingCryptoRead}
      → Inside e key blocks k p ps (length p) r
      → Before e key blocks (suc k) r × (drop (suc k) blocks ≡ ps)
  Inside-end {k} {p} {ps} h =
      let next : drop (suc k) blocks ≡ ps =
        ap (λ j. drop j blocks) {x = suc k} {y = k + 1} (omega arith)
        ∙ sym (drop-drop 1 k blocks)
        ∙ ap (drop 1) h.here in
      (
        record {
          over = h.over;
          index = h.index;
          sealed = subst (λ l. Sealed e key (suc k) l (left h.over.file)) (sym next) h.sealed;
          nothing = unread-Inside e key blocks h ∙ drop_all (length p) p (omega arith);
        },
        next,
      )

  -- A change of block, from any place.
  pub change_block-Moves :
      (r : RingCryptoRead) (new_pos : ℕ) (p : List ℕ) (ps : List (List ℕ))
      → Over e key blocks r
      → drop (new_pos / e.block_size) blocks ≡ p ∷ ps
      → new_pos % e.block_size ≤ length p
      → Moves tt
          (new_pos / e.block_size)
          (new_pos % e.block_size)
          (change_block e buf_size new_pos)
          r
  unfolding change_block File.seek_to BufMut.clear
  change_block-Moves r new_pos p ps h here le =
      let k : ℕ = new_pos / e.block_size in
      let o : ℕ = new_pos % e.block_size in
      let d : ℕ = ciphertext_block_size e in
      let lt : k < length blocks = omega (arith, ap length here, length-drop k blocks) in
      let start_pos : ℕ = k * d % 2 ^ 64 in
      let (some_bytes, _) =
        IsBlocks-head e.block_size p ps env.block_pos
          (subst (IsBlocks e.block_size) here (IsBlocks-drop e.block_size k blocks h.cut)) in
      let sealed_here : Sealed e key k (drop k blocks) (drop (k * d) h.file.content) =
        subst (λ j. Sealed e key j (drop k blocks) (drop (k * d) h.file.content)) {x = 0 + k}
          {y = k} (omega arith) (Sealed-drop e key 0 k blocks h.file.content h.cut lt h.whole) in
      let in_file : start_pos ≡ k * d = omega (
        arith,
        length-Sealed e key k (drop k blocks) (drop (k * d) h.file.content) sealed_here,
        length-drop (k * d) h.file.content,
        ap (λ l. length (flatten l)) here,
        length-append p (flatten ps),
        h.small,
      ) in
      let r' : RingCryptoRead = record r {
        input = some (record h.file { cursor = start_pos });
        buf = BufMut.clear r.buf;
        block_index = k;
      } in
      let before : Before e key blocks k r' = record {
        over = record {
          file = record h.file { cursor = start_pos };
          is_open = refl;
          burst = h.burst;
          same_key = h.same_key;
          buf_valid = clear-IsValid h.buf_valid;
          buf_len = h.buf_len;
          whole = h.whole;
          cut = h.cut;
          small = h.small;
          few = h.few;
        };
        index = refl;
        sealed = rw in_file sealed_here;
        nothing = refl;
      } in
      elim (Bool-cases (o == 0)) [
        | inl at_start ↦
            (let (loaded, run, inside) = load-Before e key blocks env before here in
              let zero_o : o ≡ 0 = ground arith in
              (
                loaded,
                ground (arith, h.is_open, run, skip-none o loaded zero_o),
                p,
                ps,
                subst (λ j. Inside e key blocks k p ps j loaded) (sym zero_o) inside,
              ))
        | inr later ↦
            (let (r'', run, p', ps', moved) =
                skip-Before k o p ps r' before here (ground arith) le (omega arith) in
              (r'', ground (arith, h.is_open, run), p', ps', moved))
      ]
