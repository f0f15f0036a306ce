-- ===== src/Crypto/Read/Seek/Target.antt =====
-- `seek` of the reader as a whole.
use native.Mathlib.Nat.{div-add-mod', mod-lt}
use encryptedfs.Prelude.{
  ℕ, ◌+◌, ◌-◌, ◌*◌, ◌/◌, ◌%◌, ◌^◌, ◌≤◌, ◌<◌, min, ◌≡◌, refl, sym, ap, subst, ◌≢◌, inl, inr, List,
  ◌∷◌, arith, ◌==◌, if◌then◌else◌, Bool-cases, length, drop, flatten, length-append, length-drop,
  nil_of_length, Exec, gets, ◌>>◌, ok, err,
}
use encryptedfs.Prelude.Int.{pos, negsuc}
use encryptedfs.Io.{IoError, SeekFrom, invalid_input}
use encryptedfs.BufMut.Seek.{target, seek_target-eq-target, FitsI64}
use encryptedfs.Crypto.{Env, IsEnv}
use encryptedfs.Crypto.Format.{IsBlocks-nonempty}
use encryptedfs.Crypto.Read.{RingCryptoRead, position, get_plaintext_len}
use encryptedfs.Crypto.Read.Ahead.{Ahead}
use encryptedfs.Crypto.Read.Length.{get_plaintext_len_lem}
use encryptedfs.Crypto.Read.Seek.{seek_in_block, change_block, seek_to, seek}
use encryptedfs.Crypto.Read.Seek.Place.{Inside-le, Over, Inside}
use encryptedfs.Crypto.Read.Seek.Locate.{locate, drop-flatten}
use encryptedfs.Crypto.Read.Seek.Steps.{change_block-Moves}
use encryptedfs.Crypto.Read.Seek.Stands.{
  Stands, at_front, in_block, Stands-Over, position-Stands, Stands-Ahead,
}
use encryptedfs.Crypto.Read.Seek.Block.{length-Inside, seek_in_block-Moves}

module _ (e : Env) (key : List ℕ) (blocks : List (List ℕ)) (env : IsEnv e) (buf_size : ℕ)
    (room : 0 < buf_size) (small : e.block_size + buf_size < 2 ^ 64) where
  -- A call that succeeds with `place`, at which the reader then stands, with the data from there on
  -- ahead.
  abbrev pub Lands : ℕ → Exec IoError RingCryptoRead ℕ → RingCryptoRead → Type 0
  Lands place m r =
      (r' : RingCryptoRead) × (m r ≡ (ok place, r'))
      × Stands e key blocks r' place
      × Ahead e key r' (drop place (flatten blocks))

  moved_to :
      (new_pos : ℕ) {r r' : RingCryptoRead} {p : List ℕ} {ps : List (List ℕ)}
      (m : Exec IoError RingCryptoRead (Unit {0}))
      → Inside e key blocks (new_pos / e.block_size) p ps (new_pos % e.block_size) r'
      → m r ≡ (ok tt, r')
      → Lands new_pos (do m; gets (position e)) r
  moved_to new_pos {r} {r'} {p = p} {ps = ps} m h run =
      let stands : Stands e key blocks r' new_pos =
        in_block (new_pos / e.block_size) (new_pos % e.block_size) p ps h
          (sym (div-add-mod' new_pos e.block_size)) in
      (r', rw (run, position-Stands e key blocks stands), stands, Stands-Ahead e key blocks stands)

  seek_to-Lands :
      (new_pos : ℕ) {r : RingCryptoRead} {place : ℕ}
      → Stands e key blocks r place
      → (place ≢ new_pos
          → (p : List ℕ) × (ps : List (List ℕ)) × (drop (new_pos / e.block_size) blocks ≡ p ∷ ps)
            × (new_pos % e.block_size ≤ length p))
      → Lands new_pos (seek_to e buf_size new_pos) r
  unfolding seek_to
  seek_to-Lands new_pos {r} {place} stands located =
      let size : ℕ = e.block_size in
      let here = position-Stands e key blocks stands in
      elim (Bool-cases (place == new_pos)) [
        | inl stays ↦
            (let same : place ≡ new_pos = ground arith in
              let stands' : Stands e key blocks r new_pos =
                subst (Stands e key blocks r) same stands in
              (r, rw (here, stays), stands', Stands-Ahead e key blocks stands'))
        | inr differs ↦
            (let moves : place ≢ new_pos = λ z. ground (arith, z) in
              let (p, ps, at, le) = located moves in
              elim (Bool-cases (place / size == new_pos / size)) [
                | inl same ↦
                    (let (r', run, p', ps', h) =
                        seek_in_block-Moves e key blocks env buf_size room small new_pos p ps stands
                          (ground arith) moves at le in
                      rw (here, differs, same)
                        (moved_to new_pos (seek_in_block e buf_size new_pos) h run))
                | inr changes ↦
                    (let (r', run, p', ps', h) =
                        change_block-Moves e key blocks env buf_size room small r new_pos p ps
                          (Stands-Over e key blocks stands) at le in
                      rw (here, differs, changes)
                        (moved_to new_pos (change_block e buf_size new_pos) h run))
              ])
      ]

  -- `get_plaintext_len` of the code.
  abbrev pub readable : ℕ
  readable =
      length (flatten blocks)
      - (if length (flatten blocks) % e.block_size == 0 then e.nonce_len + e.tag_len else 0)

  no_data : length blocks ≡ 0 → length (flatten blocks) ≡ 0
  no_data z = ap (λ l. length (flatten l)) (nil_of_length blocks z)

  some_blocks :
      (new_pos : ℕ) {r : RingCryptoRead} {place : ℕ}
      → Stands e key blocks r place
      → new_pos ≤ readable
      → place ≢ new_pos
      → 0 < length blocks
  some_blocks new_pos (at_front b a z i) le moves = ground (arith, no_data)
  some_blocks new_pos (in_block k o p ps h i) le moves =
      omega (arith, ap length h.here, length-drop k blocks)

  place-le :
      {r : RingCryptoRead} {place : ℕ}
      → Stands e key blocks r place
      → place ≤ length (flatten blocks)
  place-le (at_front b a z i) = omega (arith, i)
  place-le {place = place} (in_block k o p ps h i) =
      let o_le = Inside-le e key blocks h in
      let from_block = drop-flatten e.block_size k 0 blocks h.over.cut h.here (omega arith) in
      let some_bytes = (length-Inside e key blocks env buf_size room small h).0 in
      omega (
        arith,
        i,
        ap length from_block,
        length-append p (flatten ps),
        length-drop (k * e.block_size + 0) (flatten blocks),
      )

  -- A place up to there lies in a block, if the reader is not there already.
  located :
      (new_pos : ℕ) {r : RingCryptoRead} {place : ℕ}
      → Stands e key blocks r place
      → 0 < e.nonce_len
      → new_pos ≤ readable
      → place ≢ new_pos
      → (p : List ℕ) × (ps : List (List ℕ)) × (drop (new_pos / e.block_size) blocks ≡ p ∷ ps)
        × (new_pos % e.block_size ≤ length p)
  located new_pos stands some_nonce le moves =
      let whole = div-add-mod' new_pos e.block_size in
      let cut = (Stands-Over e key blocks stands).cut in
      let more = some_blocks new_pos stands le moves in
      locate e.block_size (new_pos / e.block_size) (new_pos % e.block_size) blocks cut more
        (mod-lt new_pos env.block_pos) (ground (arith, whole))
        (λ z. ground (
          arith,
          z,
          whole,
          IsBlocks-nonempty e.block_size blocks env.block_pos more cut,
          ap (λ j. j % e.block_size) z,
          ap (λ j. j % e.block_size) whole,
        ))

  pub measured :
      {r : RingCryptoRead}
      → Over e key blocks r
      → e.nonce_len + e.tag_len ≤ e.block_size
      → get_plaintext_len e r ≡ (ok readable, r)
  measured {r} over wide =
      get_plaintext_len_lem e key env wide {f = over.file} {written = flatten blocks} r over.is_open
        (record { blocks = blocks; sealed = over.whole; cut = over.cut; whole = refl })
        (omega (arith, over.small))

  module _ (wide : e.nonce_len + e.tag_len ≤ e.block_size) (some_nonce : 0 < e.nonce_len)
      (p : SeekFrom) {r : RingCryptoRead} {place : ℕ} (stands : Stands e key blocks r place) where
    -- With the laws of the AEAD, a nonce of some length, blocks no shorter than a nonce and a tag,
    -- and a stream with less than 2^63 bytes of data: from a reader that stands anywhere in the
    -- stream, fresh or inside a loaded block, a seek whose target is a number `n` ends, at `n` or at
    -- what `get_plaintext_len` takes for the end of the data, whichever comes first. It returns
    -- that place, which is then the reader's position, and the data from there on is ahead.
    pub seek_lem :
        (n : ℕ)
        → length (flatten blocks) < 2 ^ 63
        → target p readable place ≡ pos n
        → n < 2 ^ 63
        → Lands (min n readable) (seek e buf_size p) r
    unfolding seek
    seek_lem n few z fits =
        let t =
          seek_target-eq-target p readable place (omega arith) (omega (arith, place-le stands))
            (subst FitsI64 (sym z) (omega arith)) in
        let (r', run, stands', ahead) =
          seek_to-Lands (min n readable) stands
            (located (min n readable) stands some_nonce (omega arith)) in
        (
          r',
          ground (
            arith,
            measured (Stands-Over e key blocks stands) wide,
            t,
            z,
            position-Stands e key blocks stands,
            run,
          ),
          stands',
          ahead,
        )

    -- Under the same conditions a seek to a place before the start fails as invalid input, and the
    -- reader stays as it is.
    pub seek-before_start :
        (n : ℕ)
        → length (flatten blocks) < 2 ^ 63
        → target p readable place ≡ negsuc n
        → n < 2 ^ 63
        → seek e buf_size p r ≡ (err invalid_input, r)
    unfolding seek
    seek-before_start n few z fits =
        let t =
          seek_target-eq-target p readable place (omega arith) (omega (arith, place-le stands))
            (subst FitsI64 (sym z) (omega arith)) in
        ground (
          arith,
          measured (Stands-Over e key blocks stands) wide,
          t,
          z,
          position-Stands e key blocks stands,
        )
