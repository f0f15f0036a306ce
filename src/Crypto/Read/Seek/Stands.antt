-- ===== src/Crypto/Read/Seek/Stands.antt =====
-- The position of a reader: fresh at the front of the stream, or inside a loaded block.
use encryptedfs.Prelude.{ℕ, ◌+◌, ◌-◌, ◌*◌, ◌≡◌, sym, ap, ◌∙◌, subst, List, arith, drop, flatten}
use encryptedfs.Crypto.{Env}
use encryptedfs.Crypto.Read.{RingCryptoRead, position}
use encryptedfs.Crypto.Read.Ahead.{Ahead}
use encryptedfs.Crypto.Read.Seek.Place.{Inside-le, Over, Before, Inside}
use encryptedfs.Crypto.Read.Seek.Reads.{Before-Ahead, Inside-Ahead}
use encryptedfs.Crypto.Read.Seek.Locate.{drop-flatten}

module _ (e : Env) (key : List ℕ) (blocks : List (List ℕ)) where
  pub data Stands (r : RingCryptoRead) (place : ℕ) : Type 0 where
    at_front :
        Before e key blocks 0 r
        → r.buf.available ≡ 0
        → r.buf.pos_read ≡ 0
        → place ≡ 0
        → Stands r place
    in_block :
        (k o : ℕ) (p : List ℕ) (ps : List (List ℕ))
        → Inside e key blocks k p ps o r
        → place ≡ k * e.block_size + o
        → Stands r place

  pub Stands-Over : {r : RingCryptoRead} {place : ℕ} → Stands r place → Over e key blocks r
  Stands-Over (at_front b a z i) = b.over
  Stands-Over (in_block k o p ps h i) = h.over

  -- `pos` of the code.
  pub position-Stands : {r : RingCryptoRead} {place : ℕ} → Stands r place → position e r ≡ place
  unfolding position
  position-Stands (at_front b a z i) = grind (arith, b.index)
  position-Stands {r} (in_block k o p ps h i) =
      let index : r.block_index - 1 ≡ k = omega (arith, h.index) in
      let offset : r.buf.pos_read - e.nonce_len ≡ o = omega (arith, h.pos) in
      rw (index, offset) (sym i)

  -- A reader has the data from its position on ahead.
  pub Stands-Ahead :
      {r : RingCryptoRead} {place : ℕ}
      → Stands r place
      → Ahead e key r (drop place (flatten blocks))
  Stands-Ahead {r} (at_front b a z i) =
      subst (λ j. Ahead e key r (drop j (flatten blocks))) (sym i)
        (Before-Ahead e key blocks b (omega arith))
  Stands-Ahead {r} (in_block k o p ps h i) =
      subst (Ahead e key r)
        (sym (
          ap (λ j. drop j (flatten blocks)) i
          ∙ drop-flatten e.block_size k o blocks h.over.cut h.here (Inside-le e key blocks h)))
        (Inside-Ahead e key blocks h)
