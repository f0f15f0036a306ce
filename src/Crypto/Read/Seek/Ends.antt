-- ===== src/Crypto/Read/Seek/Ends.antt =====
-- A new reader, and one that has read to the end: the first stands at 0, the second forgets where.
use encryptedfs.Prelude.{
  ℕ, suc, ◌+◌, ◌-◌, ◌*◌, ◌^◌, ◌≤◌, ◌<◌, ◌≡◌, refl, sym, ap, ◌∙◌, subst, ◌≢◌, false, List, [], ◌++◌,
  arith, length, drop, flatten, length-append, length-drop, length-replicate, drop_none, ok,
}
use encryptedfs.Io.{start}
use encryptedfs.Io.File.{File}
use encryptedfs.BufMut
use encryptedfs.BufMut.{BufMut}
use encryptedfs.Crypto.{ciphertext_block_size, Env, IsEnv}
use encryptedfs.Crypto.Format.{Sealed, length-Sealed}
use encryptedfs.Crypto.Decrypt.Fill.{left}
use encryptedfs.Crypto.Decrypt.Open.{decrypt_block-end}
use encryptedfs.Crypto.RoundTrip.{length-blocks-le}
use encryptedfs.Crypto.Read.{new, RingCryptoRead, read, decrypter, position}
use encryptedfs.Crypto.Read.Ahead.{next_block_run, unbuffered}
use encryptedfs.Crypto.Write.Finish.{Stores}
use encryptedfs.Crypto.Read.Seek.{seek_to, seek}
use encryptedfs.Crypto.Read.Seek.Place.{Before, Inside}
use encryptedfs.Crypto.Read.Seek.Reads.{Before-Ahead}
use encryptedfs.Crypto.Read.Seek.Locate.{drop-flatten, parts}
use encryptedfs.Crypto.Read.Seek.Steps.{Inside-end}
use encryptedfs.Crypto.Read.Seek.Stands.{Stands, at_front}
use encryptedfs.Crypto.Read.Seek.Block.{length-Inside}
use encryptedfs.Crypto.Read.Seek.Target.{readable, measured}

module _ (e : Env) (key : List ℕ) (env : IsEnv e) where
  -- A new reader at the start of a stored file stands at 0.
  pub new-Stands :
      {f : File} {written : List ℕ}
      → 0 < f.burst
      → f.cursor ≡ 0
      → length f.content < 2 ^ 63
      → (stores : Stores e key written f) → Stands e key stores.blocks (new e f key) 0
  unfolding new BufMut.new
  new-Stands {f} {written} burst at_start small stores =
      at_front
        (record {
          over = record {
            file = f;
            is_open = refl;
            burst = burst;
            same_key = refl;
            buf_valid =
                omega (arith, length-replicate {0} {A = ℕ} (ciphertext_block_size e) 0, env.small);
            buf_len = length-replicate (ciphertext_block_size e) 0;
            whole = stores.sealed;
            cut = stores.cut;
            small = small;
            few = omega (
              arith,
              length-blocks-le e.block_size stores.blocks env.block_pos stores.cut,
              length-Sealed e key 0 stores.blocks f.content stores.sealed,
            );
          };
          index = refl;
          sealed =
              subst (λ l. Sealed e key 0 stores.blocks l)
                (sym (drop_none f.cursor f.content at_start)) stores.sealed;
          nothing = refl;
        })
        refl refl refl

module _ (e : Env) (key : List ℕ) (blocks : List (List ℕ)) (env : IsEnv e) (buf_size : ℕ)
    (room : 0 < buf_size) (small : e.block_size + buf_size < 2 ^ 64)
    (wide : e.nonce_len + e.tag_len ≤ e.block_size) where
  -- What a read at the end leaves: an empty buffer, and the index behind the last block.
  abbrev pub emptied : RingCryptoRead → RingCryptoRead
  emptied r = record r {
    buf = record r.buf { pos_write = 0; pos_read = 0; available = 0; dirty = false };
  }

  read-end :
      {k : ℕ} {r : RingCryptoRead} (n : ℕ)
      → 0 < n
      → Before e key blocks k r
      → drop k blocks ≡ []
      → k ≤ length blocks
      → read e n r ≡ (ok [], emptied r)
  unfolding BufMut.clear BufMut.read
  read-end {k} {r} n pos_n b none_left le =
      let f : File = b.over.file in
      let at_end : left f ≡ [] = subst (λ bs. Sealed e key k bs (left f)) none_left b.sealed in
      let next =
        next_block_run e key r f b.over.is_open
          (decrypt_block-end e (decrypter f r) b.over.burst at_end) in
      unbuffered e key (Before-Ahead e key blocks b le) n b.nothing next
      ∙ ground (arith, b.over.is_open)

  emptied-Before :
      {k : ℕ} {r : RingCryptoRead} → Before e key blocks k r → Before e key blocks k (emptied r)
  emptied-Before b = record {
    over = record {
      file = b.over.file;
      is_open = b.over.is_open;
      burst = b.over.burst;
      same_key = b.over.same_key;
      buf_valid = omega (arith, b.over.buf_valid.small);
      buf_len = b.over.buf_len;
      whole = b.over.whole;
      cut = b.over.cut;
      small = b.over.small;
      few = b.over.few;
    };
    index = b.index;
    sealed = b.sealed;
    nothing = refl;
  }

  seek-emptied :
      {k : ℕ} {r : RingCryptoRead}
      → Before e key blocks (suc k) r
      → k * e.block_size ≤ readable e key blocks env buf_size room small
      → length (flatten blocks) < 2 ^ 63
      → seek e buf_size (start (k * e.block_size)) (emptied r) ≡ (ok (k * e.block_size), emptied r)
  unfolding seek seek_to position
  seek-emptied {k} {r} b le few =
      let index : r.block_index - 1 ≡ k = omega (arith, b.index) in
      let none_left : 0 - e.nonce_len ≡ 0 = omega arith in
      let same : k * e.block_size + 0 ≡ k * e.block_size = omega arith in
      ground (
        arith,
        measured e key blocks env buf_size room small (emptied-Before b).over wide,
        index,
        none_left,
        same,
      )

  -- With the laws of the AEAD, blocks no shorter than a nonce and a tag, and less than 2^63 bytes
  -- of data: a reader at the end of the data, in a last block that is not full, is given an empty
  -- read, and then a seek back to the start of that block. The seek returns the place asked for,
  -- but the next read returns nothing, though there is data at that place.
  pub seek-after_end :
      {k : ℕ} {p : List ℕ} {r : RingCryptoRead} (n : ℕ)
      → 0 < n
      → Inside e key blocks k p [] (length p) r
      → length p < e.block_size
      → length (flatten blocks) < 2 ^ 63
      → (r' : RingCryptoRead) × (read e n r ≡ (ok [], r'))
        × (seek e buf_size (start (k * e.block_size)) r' ≡ (ok (k * e.block_size), r'))
        × (read e n r' ≡ (ok [], r'))
        × (drop (k * e.block_size) (flatten blocks) ≢ [])
  seek-after_end {k} {p} {r} n pos_n h short few =
      let (b, none_left) = Inside-end e key blocks env buf_size room small h in
      let lt : suc k ≤ length blocks = omega (arith, ap length h.here, length-drop k blocks) in
      let there : drop (k * e.block_size + 0) (flatten blocks) ≡ p ++ [] =
        drop-flatten e.block_size k 0 blocks h.over.cut h.here (omega arith) in
      let from_k : k * e.block_size ≡ k * e.block_size + 0 = omega arith in
      let some_bytes = (length-Inside e key blocks env buf_size room small h).0 in
      let total : length (flatten blocks) ≡ k * e.block_size + length p = omega (
        arith,
        some_bytes,
        length-append p [],
        ap length there,
        length-drop (k * e.block_size + 0) (flatten blocks),
      ) in
      let modulo = (parts (length (flatten blocks)) k (length p) e.block_size total short).1 in
      let le : k * e.block_size ≤ readable e key blocks env buf_size room small =
        ground (arith, modulo, some_bytes, total) in
      (
        emptied r,
        read-end n pos_n b none_left lt,
        seek-emptied b le few,
        read-end n pos_n (emptied-Before b) none_left lt,
        λ z. absurd (
            omega (
              arith,
              some_bytes,
              length-append p [],
              ap length there,
              ap length z,
              ap (λ j. length (drop j (flatten blocks))) from_k,
            )),
      )
