-- ===== src/Crypto/Decrypt/Open.antt =====
-- `decrypt_block!` at a block of the stream and at its end.
use encryptedfs.Prelude.{
  ℕ, ◌+◌, ◌-◌, ◌%◌, ◌^◌, ◌≤◌, min, ◌≡◌, sym, true, false, some, List, ◌++◌, arith, ltb, length,
  take, drop, length-append, length-take, take-append_length, drop-append_length, splice, ok, ◌<◌,
  refl, ap, ◌∙◌, ◌⊎◌, inl, inr, [], append-nil, append_assoc, take_all, drop-drop, length-splice,
  take-nil,
}
use encryptedfs.Prelude.Int.{pos}
use encryptedfs.Io.{start}
use encryptedfs.BufMut
use encryptedfs.BufMut.{BufMut}
use encryptedfs.BufMut.Valid.{IsValid}
use encryptedfs.BufMut.Seek.{within, seek_read_lem, seek_available_lem}
use encryptedfs.Crypto.{aad_of, Env, ciphertext_block_size}
use encryptedfs.Crypto.Decrypt.{open_block, accept_block, Decrypter, decrypt_block}
use encryptedfs.Crypto.Decrypt.Fill.{left, fill_lem}
use encryptedfs.Crypto.Format.{SealedBlock}
use encryptedfs.Io.File.{File}

open_block_lem :
    (e : Env) (d : Decrypter) (nonce c p : List ℕ)
    → length nonce ≡ e.nonce_len
    → e.open_within d.key nonce (aad_of d.block_index) c ≡ some p
    → open_block e (nonce ++ c) d ≡ (
      ok p,
      record d {
        last_nonce = some nonce;
        buf = record d.buf { buf = splice e.nonce_len p d.buf.buf };
      },
    )
unfolding open_block
open_block_lem e d nonce c p len opened =
    let long : ltb (length (nonce ++ c)) e.nonce_len ≡ false =
      ground (arith, length-append nonce c) in
    ground (
      arith,
      long,
      take-append_length e.nonce_len nonce c (sym len),
      drop-append_length e.nonce_len nonce c (sym len),
      opened,
    )

-- The positions after a block with `len` bytes of plaintext.
abbrev pub accepted : Env → ℕ → BufMut → BufMut
accepted e len b = record b {
  available = e.nonce_len + len;
  pos_write = min b.pos_write (e.nonce_len + len);
  pos_read = e.nonce_len;
}

pub accept_block_lem :
    (e : Env) (len : ℕ) (d : Decrypter)
    → IsValid d.buf
    → e.nonce_len + len ≤ length d.buf.buf
    → accept_block e len d
      ≡ (ok tt, record d { buf = accepted e len d.buf; block_index = (d.block_index + 1) % 2 ^ 64 })
unfolding accept_block
accept_block_lem e len d v fits =
    let b : BufMut = d.buf in
    let first = seek_available_lem {b = b} (start (e.nonce_len + len)) v (omega (arith, v.small)) in
    let b' : BufMut = record b {
      available = e.nonce_len + len;
      pos_write = min b.pos_write (e.nonce_len + len);
      pos_read = min b.pos_read (e.nonce_len + len);
    } in
    let v' : IsValid b' = omega arith in
    let second = seek_read_lem {b = b'} (start e.nonce_len) v' (omega (arith, v.small)) in
    let in_1 : within (pos (e.nonce_len + len)) (length b.buf) ≡ true = ground arith in
    let in_2 : within (pos e.nonce_len) (e.nonce_len + len) ≡ true = ground arith in
    ground (arith, first, in_1, second, in_2)

-- The plaintext lies behind the nonce, between the read position and the available length.
pub unread-accepted :
    (e : Env) (p : List ℕ) (b : BufMut)
    → e.nonce_len + length p ≤ length b.buf
    → BufMut.as_ref_read_available
        (accepted e (length p) (record b { buf = splice e.nonce_len p b.buf }))
      ≡ p
unread-accepted e p b fits =
    let n : ℕ = e.nonce_len in
    let tail : List ℕ = drop (n + length p) b.buf in
    rw (drop-append_length n (take n b.buf) (p ++ tail) (omega (arith, length-take n b.buf)))
      (take-append_length (n + length p - n) p tail (omega arith))

-- What `decrypt_block!` has done with a block that holds `p`, and that `rest` follows.
pub record Opened (e : Env) (p rest : List ℕ) (d : Decrypter) : Type 0 where
  pub next : Decrypter
  pub outcome : decrypt_block e d ≡ (ok tt, next)
  pub buf_valid : IsValid next.buf
  pub buf_len : length next.buf.buf ≡ length d.buf.buf
  pub plain : BufMut.as_ref_read_available next.buf ≡ p
  pub position : next.buf.pos_read ≡ e.nonce_len
  pub index : next.block_index ≡ (d.block_index + 1) % 2 ^ 64
  pub input : left next.input ≡ rest
  pub same_burst : next.input.burst ≡ d.input.burst
  pub same_content : next.input.content ≡ d.input.content
  pub same_key : next.key ≡ d.key

module _ (e : Env) (d : Decrypter) (p rest : List ℕ) (v : IsValid d.buf)
    (len : length d.buf.buf ≡ ciphertext_block_size e) (burst : 0 < d.input.burst)
    (b : SealedBlock e d.key d.block_index p rest (left d.input)) (some_bytes : 0 < length p)
    (fits : length p ≤ e.block_size) (whole : (rest ≡ []) ⊎ (length p ≡ e.block_size)) where
  block : List ℕ
  block = b.nonce ++ (b.cipher ++ b.tag)

  length-block : length block ≡ e.nonce_len + length p + e.tag_len
  unfolding block
  length-block = omega (
    arith,
    length-append b.nonce (b.cipher ++ b.tag),
    length-append b.cipher b.tag,
    b.nonce_length,
    b.cipher_length,
    b.tag_length,
  )

  layout : left d.input ≡ block ++ rest
  unfolding block
  layout = b.layout ∙ simp append_assoc

  -- One fill takes the whole block and no byte of the next.
  one_block :
      (take (length d.buf.buf) (left d.input) ≡ block) × (drop (length block) (left d.input) ≡ rest)
  one_block = (
    elim whole [
      | inl at_end ↦
          (ap (take (length d.buf.buf)) (layout ∙ ap (λ l. block ++ l) at_end ∙ append-nil block)
            ∙ take_all (length d.buf.buf) block (omega (arith, length-block)))
      | inr is_full ↦
          (ap (take (length d.buf.buf)) layout
            ∙ take-append_length (length d.buf.buf) block rest (omega (arith, length-block)))
    ],
    ap (drop (length block)) layout ∙ drop-append_length (length block) block rest refl,
  )

  -- The buffer with the block in it, and with the plaintext opened in place.
  filled : BufMut
  unfolding BufMut.clear block
  filled = let b0 : BufMut = BufMut.clear d.buf in record b0 { buf = splice 0 block d.buf.buf }

  opened : BufMut
  unfolding filled
  opened = record filled { buf = splice e.nonce_len p filled.buf }

  length-filled : length filled.buf ≡ length d.buf.buf
  unfolding filled
  length-filled = length-splice 0 block d.buf.buf (omega (arith, length-block))

  length-opened : length opened.buf ≡ length d.buf.buf
  unfolding opened
  length-opened =
      length-splice e.nonce_len p filled.buf (omega (arith, length-filled)) ∙ length-filled

  opened-IsValid : IsValid opened
  unfolding opened
  opened-IsValid = omega (arith, length-opened, v.small)

  next : Decrypter
  unfolding opened
  next = record d {
    block_index = (d.block_index + 1) % 2 ^ 64;
    buf = accepted e (length p) opened;
    input = record d.input { cursor = d.input.cursor + length block };
    last_nonce = some b.nonce;
  }

  run : decrypt_block e d ≡ (ok tt, next)
  unfolding decrypt_block next
  run =
      let f' : File = record d.input { cursor = d.input.cursor + length block } in
      let start_d : Decrypter = record d { buf = filled; input = f' } in
      let opened_d : Decrypter = record start_d { buf = opened; last_nonce = some b.nonce } in
      ground (
        arith,
        fill_lem (length d.buf.buf) d.input burst,
        one_block.0,
        length-block,
        open_block_lem e start_d b.nonce (b.cipher ++ b.tag) p b.nonce_length b.opened,
        accept_block_lem e (length p) opened_d opened-IsValid (omega (arith, length-opened)),
      )

  -- With a valid buffer as long as a ciphertext block, over an input that gives bytes and stands
  -- at a sealed block of the current index, which is not empty, and full unless it is the last:
  -- `decrypt_block!` reads it whole, however short the single reads are, opens it, and leaves its
  -- plaintext to be read; the index goes up by one, and the input stands at the next block.
  pub decrypt_block_lem : Opened e p rest d
  unfolding next
  decrypt_block_lem = record {
    next = next;
    outcome = run;
    buf_valid = omega (arith, length-opened, v.small, opened-IsValid.available_le);
    buf_len = length-opened;
    plain = unread-accepted e p filled (omega (arith, length-filled));
    position = refl;
    index = refl;
    input = sym (drop-drop (length block) d.input.cursor d.input.content) ∙ one_block.1;
    same_burst = refl;
    same_content = refl;
    same_key = refl;
  }

-- At the end of the input the buffer is emptied, and nothing else changes.
pub decrypt_block-end :
    (e : Env) (d : Decrypter)
    → 0 < d.input.burst
    → left d.input ≡ []
    → decrypt_block e d ≡ (ok tt, record d { buf = BufMut.clear d.buf })
unfolding decrypt_block BufMut.clear
decrypt_block-end e d burst at_end =
    let nothing : take (length d.buf.buf) (left d.input) ≡ [] =
      ap (take (length d.buf.buf)) at_end ∙ take-nil (length d.buf.buf) in
    let same : d.input.cursor + 0 ≡ d.input.cursor = omega arith in
    ground (arith, fill_lem (length d.buf.buf) d.input burst, nothing, same)
