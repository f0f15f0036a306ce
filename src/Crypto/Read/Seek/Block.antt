-- ===== src/Crypto/Read/Seek/Block.antt =====
-- `seek` to a place in the block where the reader stands.
use native.Mathlib.Nat.{div-add-mod'}
use encryptedfs.Prelude.{
  ℕ, suc, ◌+◌, ◌*◌, ◌/◌, ◌%◌, ◌^◌, ◌≤◌, ◌<◌, ◌≡◌, sym, ap, ◌∙◌, subst, ◌≢◌, inl, inr, true, false,
  not, ◌&&◌, List, ◌∷◌, arith, ltb, ◌==◌, Bool-cases, length, drop,
}
use encryptedfs.Prelude.Int.{pos}
use encryptedfs.Io.{start}
use encryptedfs.BufMut.{BufMut}
use encryptedfs.BufMut.Seek.{seek_read_lem, within}
use encryptedfs.Crypto.{Env, IsEnv}
use encryptedfs.Crypto.Format.{IsBlocks, IsBlocks-head, IsBlocks-drop}
use encryptedfs.Crypto.Read.{RingCryptoRead}
use encryptedfs.Crypto.Read.Length.{div_unique}
use encryptedfs.Crypto.Read.Seek.{at_full_block_end, seek_in_block}
use encryptedfs.Crypto.Read.Seek.Place.{Inside-le, move-Inside, Before, Inside}
use encryptedfs.Crypto.Read.Seek.Locate.{parts}
use encryptedfs.Crypto.Read.Seek.Steps.{Moves, skip-Before, Inside-end}
use encryptedfs.Crypto.Read.Seek.Stands.{Stands, at_front, in_block, position-Stands}

module _ (e : Env) (key : List ℕ) (blocks : List (List ℕ)) (env : IsEnv e) (buf_size : ℕ)
    (room : 0 < buf_size) (small : e.block_size + buf_size < 2 ^ 64) where
  pub length-Inside :
      {k o : ℕ} {p : List ℕ} {ps : List (List ℕ)} {r : RingCryptoRead}
      → Inside e key blocks k p ps o r
      → (0 < length p) × (length p ≤ e.block_size)
  length-Inside {k} {o} {p} {ps} h =
      IsBlocks-head e.block_size p ps env.block_pos
        (subst (IsBlocks e.block_size) h.here (IsBlocks-drop e.block_size k blocks h.over.cut))

  -- With no block loaded, or at the end of a full one, the next block is loaded and skipped into.
  seek_in_block-ahead :
      (new_pos : ℕ) (p : List ℕ) (ps : List (List ℕ)) (r : RingCryptoRead)
      → (ltb 0 r.buf.available && not (at_full_block_end e buf_size r)) ≡ false
      → Before e key blocks (new_pos / e.block_size) r
      → drop (new_pos / e.block_size) blocks ≡ p ∷ ps
      → 0 < new_pos % e.block_size
      → new_pos % e.block_size ≤ length p
      → Moves e key blocks env buf_size room small tt
          (new_pos / e.block_size)
          (new_pos % e.block_size)
          (seek_in_block e buf_size new_pos)
          r
  unfolding seek_in_block
  seek_in_block-ahead new_pos p ps r shut b here pos_o le =
      let (r', run, p', ps', moved) =
        skip-Before e key blocks env buf_size room small (new_pos / e.block_size)
          (new_pos % e.block_size) p ps r b here pos_o le (omega arith) in
      (r', rw (shut, run), p', ps', moved)

  -- Within the buffer only the read position moves.
  seek_in_block-Inside :
      (new_pos k o : ℕ) (p : List ℕ) (ps : List (List ℕ)) (r : RingCryptoRead)
      → (ltb 0 r.buf.available && not (at_full_block_end e buf_size r)) ≡ true
      → Inside e key blocks k p ps o r
      → new_pos % e.block_size ≤ length p
      → Moves e key blocks env buf_size room small tt k
          (new_pos % e.block_size)
          (seek_in_block e buf_size new_pos)
          r
  unfolding seek_in_block
  seek_in_block-Inside new_pos k o p ps r open_block h le =
      let o' : ℕ = new_pos % e.block_size in
      let b : BufMut = r.buf in
      let v = h.over.buf_valid in
      let fits : e.nonce_len + o' ≤ b.available = omega (arith, h.available) in
      let bound : e.nonce_len + o' < 2 ^ 63 = omega (arith, v.small, v.available_le) in
      let moved = seek_read_lem {b = b} (start (e.nonce_len + o')) v (omega arith) in
      let in_range : within (pos (e.nonce_len + o')) b.available ≡ true = ground arith in
      (
        record r { buf = record b { pos_read = e.nonce_len + o' } },
        rw open_block (ground (arith, moved, in_range)),
        p,
        ps,
        move-Inside e key blocks h o' le,
      )

  -- Another place in the block that starts at `place` lies behind that.
  later_place :
      (new_pos place k : ℕ)
      → place ≢ new_pos
      → place ≡ k * e.block_size
      → k ≡ new_pos / e.block_size
      → 0 < new_pos % e.block_size
  later_place new_pos place k moves start_place block_k =
      let whole = div-add-mod' new_pos e.block_size in
      let same : new_pos % e.block_size ≡ 0 → place ≡ new_pos =
        λ z. omega (arith, start_place, whole, ap (λ j. j * e.block_size) block_k) in
      ground (arith, same, moves)

  -- The new place is in the same block as the old one, and it is another.
  pub seek_in_block-Moves :
      (new_pos : ℕ) (p : List ℕ) (ps : List (List ℕ)) {r : RingCryptoRead} {place : ℕ}
      → Stands e key blocks r place
      → place / e.block_size ≡ new_pos / e.block_size
      → place ≢ new_pos
      → drop (new_pos / e.block_size) blocks ≡ p ∷ ps
      → new_pos % e.block_size ≤ length p
      → Moves e key blocks env buf_size room small tt
          (new_pos / e.block_size)
          (new_pos % e.block_size)
          (seek_in_block e buf_size new_pos)
          r
  seek_in_block-Moves new_pos p ps {r} {place} (at_front b a z i) same moves here le =
      let size : ℕ = e.block_size in
      let block_0 : 0 ≡ new_pos / size =
        sym (div_unique 0 0 size env.block_pos)
        ∙ ap (λ j. j / size) {x = 0 * size + 0} {y = place} (omega arith)
        ∙ same in
      seek_in_block-ahead new_pos p ps r (ground arith)
        (subst (λ j. Before e key blocks j r) block_0 b) here
        (later_place new_pos place 0 moves (omega arith) block_0) le
  seek_in_block-Moves new_pos p ps {r} {place} (in_block k o q qs h i) same moves here le =
      let size : ℕ = e.block_size in
      let (some_bytes, fits) = length-Inside h in
      let o_le = Inside-le e key blocks h in
      elim (Bool-cases (o == size)) [
        | inl at_end ↦
            (let full : o ≡ length q = ground arith in
              let next : place ≡ suc k * size + 0 = ground arith in
              let (quotient, modulo) = parts place (suc k) 0 size next env.block_pos in
              let here' : suc k ≡ new_pos / size = sym quotient ∙ same in
              let (b, _) =
                Inside-end e key blocks env buf_size room small
                  (subst (λ j. Inside e key blocks k q qs j r) full h) in
              seek_in_block-ahead new_pos p ps r
                (ground (
                  arith,
                  position-Stands e key blocks (in_block k o q qs h i),
                  modulo,
                  h.pos,
                  h.available,
                ))
                (subst (λ j. Before e key blocks j r) here' b) here
                (later_place new_pos place (suc k) moves (omega (arith, next)) here') le)
        | inr before_end ↦
            (let (quotient, modulo) = parts place k o size i (ground arith) in
              let same_k : k ≡ new_pos / size = sym quotient ∙ same in
              let one : q ∷ qs ≡ p ∷ ps = sym h.here ∙ ap (λ j. drop j blocks) same_k ∙ here in
              let same_p : p ≡ q = cc in
              subst
                (λ j.
                  Moves e key blocks env buf_size room small tt j (new_pos % size)
                    (seek_in_block e buf_size new_pos) r)
                same_k
                (seek_in_block-Inside new_pos k o q qs r
                  (ground (
                    arith,
                    position-Stands e key blocks (in_block k o q qs h i),
                    modulo,
                    h.pos,
                    h.available,
                  ))
                  h (omega (arith, ap length same_p))))
      ]
