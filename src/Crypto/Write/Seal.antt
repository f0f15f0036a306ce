-- ===== src/Crypto/Write/Seal.antt =====
-- One `encrypt_and_write`: the available bytes become one block at the end of the file.
use encryptedfs.Prelude.{
  ℕ, ◌+◌, ◌%◌, ◌^◌, ◌≤◌, ◌≡◌, false, some, List, [], ◌++◌, arith, length, drop, length-take,
  take-append_length, ok, refl, append-nil, append_assoc, length-append, length-splice,
}
use encryptedfs.Io.File.{File, write_all_at_end}
use encryptedfs.BufMut
use encryptedfs.BufMut.{BufMut}
use encryptedfs.BufMut.Valid.{IsValid, clear-IsValid, set_as_mut-IsValid}
use encryptedfs.Crypto.{aad_of, Env, IsEnv, advance, NonceSequence}
use encryptedfs.Crypto.Format.{SealedBlock}
use encryptedfs.Crypto.Write.{
  write_out, seal_in_place, get_last_nonce, encrypt_and_write, RingCryptoWrite,
}

-- The file after `block` is put at its end.
abbrev pub append : List ℕ → File → File
append block f = record f { content = f.content ++ block; cursor = f.cursor + length block }

append_three :
    (n c t : List ℕ) (f : File)
    → append t (append c (append n f)) ≡ append (n ++ (c ++ (t ++ []))) f
append_three n c t f =
    let content : ((f.content ++ n) ++ c) ++ t ≡ f.content ++ (n ++ (c ++ (t ++ []))) =
      simp (append_assoc, append-nil) in
    let cursor : f.cursor + length n + length c + length t
        ≡ f.cursor + length (n ++ (c ++ (t ++ []))) =
      omega
        (arith, length-append n (c ++ (t ++ [])), length-append c (t ++ []), length-append t []) in
    λ i. record f { content = content i; cursor = cursor i }

pub write_out_lem :
    (src : List ℕ) (w : RingCryptoWrite) (f : File)
    → w.out ≡ some f
    → f.cursor ≡ length f.content
    → f.cursor + length src ≤ f.quota
    → write_out src w ≡ (ok tt, record w { out = some (append src f) })
unfolding write_out
write_out_lem src w f e at_end room = rw (e, write_all_at_end f src at_end room)

as_ref-set_as_mut :
    (c : List ℕ) (b : BufMut)
    → b.available ≤ length b.buf
    → length c ≡ b.available
    → BufMut.as_ref (BufMut.set_as_mut c b) ≡ c
as_ref-set_as_mut c b h e =
    take-append_length b.available c (drop (0 + length c) b.buf) (omega arith)

-- What a successful `encrypt_and_write` of `w` on the file `f` has done.
pub record Encrypted (e : Env) (w : RingCryptoWrite) (f : File) : Type 0 where
  pub block : List ℕ
  pub sealed : SealedBlock e w.key w.block_index (BufMut.as_ref w.buf) [] block
  pub buf : BufMut
  pub buf_valid : IsValid buf
  pub buf_len : length buf.buf ≡ length w.buf.buf
  pub buf_empty :
      (buf.available ≡ 0) × (buf.pos_write ≡ 0) × (buf.pos_read ≡ 0) × (buf.dirty ≡ false)
  pub outcome : encrypt_and_write e w ≡ (
    ok tt,
    record w {
      out = some (append block f);
      buf = buf;
      nonce_sequence = advance e w.nonce_sequence;
      block_index = (w.block_index + 1) % 2 ^ 64;
    },
  )

last_nonce-advance :
    (e : Env) (s : NonceSequence) → (advance e s).last_nonce ≡ some (e.random s.draws)
unfolding advance
last_nonce-advance e s = refl

seal_in_place_lem :
    (e : Env) (w : RingCryptoWrite) (c t : List ℕ)
    → e.seal w.key (e.random w.nonce_sequence.draws) (aad_of w.block_index) (BufMut.as_ref w.buf)
      ≡ some (c, t)
    → seal_in_place e w ≡ (
      ok t,
      record w { nonce_sequence = advance e w.nonce_sequence; buf = BufMut.set_as_mut c w.buf },
    )
unfolding seal_in_place
seal_in_place_lem e w c t sealed = rw (sealed, seal_in_place)

get_last_nonce_lem :
    (e : Env) (w : RingCryptoWrite) (n : List ℕ)
    → w.nonce_sequence.last_nonce ≡ some n
    → get_last_nonce e w ≡ (ok n, w)
unfolding get_last_nonce
get_last_nonce_lem e w n h = ground arith

-- The run of `encrypt_and_write` once the block has been sealed.
encrypt_and_write_run :
    (e : Env) (w : RingCryptoWrite) (f : File) (c t : List ℕ)
    → w.buf.available ≤ length w.buf.buf
    → length c ≡ w.buf.available
    → w.out ≡ some f
    → f.cursor ≡ length f.content
    → let nonce = e.random w.nonce_sequence.draws in
      f.cursor + (length nonce + length c + length t) ≤ f.quota
      → e.seal w.key nonce (aad_of w.block_index) (BufMut.as_ref w.buf) ≡ some (c, t)
      → encrypt_and_write e w ≡ (
        ok tt,
        record w {
          out = some (append (nonce ++ (c ++ (t ++ []))) f);
          buf = BufMut.clear (BufMut.set_as_mut c w.buf);
          nonce_sequence = advance e w.nonce_sequence;
          block_index = (w.block_index + 1) % 2 ^ 64;
        },
      )
unfolding encrypt_and_write
encrypt_and_write_run e w f c t fits length_c o at_end room sealed =
    let nonce : List ℕ = e.random w.nonce_sequence.draws in
    let f1 : File = append nonce f in
    let f2 : File = append c f1 in
    let b : BufMut = BufMut.set_as_mut c w.buf in
    let w1 : RingCryptoWrite = record w { nonce_sequence = advance e w.nonce_sequence; buf = b } in
    let end1 : f1.cursor ≡ length f1.content = omega (arith, length-append f.content nonce) in
    let end2 : f2.cursor ≡ length f2.content = omega (arith, length-append f1.content c) in
    rw (
      seal_in_place_lem e w c t sealed,
      get_last_nonce_lem e w1 nonce last,
      write_out_lem nonce w1 f o at_end (omega arith),
      as_ref-set_as_mut c w.buf fits length_c,
      write_out_lem c (record w1 { out = some f1 }) f1 refl end1 (omega arith),
      write_out_lem t (record w1 { out = some f2; buf = BufMut.clear b }) f2 refl end2
          (omega arith),
      append_three nonce c t f,
    )
  where
    last : (advance e w.nonce_sequence).last_nonce ≡ some (e.random w.nonce_sequence.draws)
    last = last_nonce-advance e w.nonce_sequence

-- The available bytes of a writer at the end of its file become one block there, if it has room.
pub encrypt_and_write_lem :
    (e : Env) (w : RingCryptoWrite) (f : File)
    → IsEnv e
    → IsValid w.buf
    → w.buf.available ≤ e.block_size
    → w.out ≡ some f
    → f.cursor ≡ length f.content
    → f.cursor + (e.nonce_len + w.buf.available + e.tag_len) ≤ f.quota
    → Encrypted e w f
unfolding BufMut.clear
encrypt_and_write_lem e w f env v small o at_end room =
    let p : List ℕ = BufMut.as_ref w.buf in
    let nonce : List ℕ = e.random w.nonce_sequence.draws in
    let length_p : length p ≡ w.buf.available =
      omega (arith, length-take w.buf.available w.buf.buf) in
    let (c, t, sealed, length_c, length_t, opened) =
      env.seals w.key nonce (aad_of w.block_index) p (omega arith) in
    let length_nonce : length nonce ≡ e.nonce_len = env.length-random w.nonce_sequence.draws in
    record {
      block = nonce ++ (c ++ (t ++ []));
      sealed = record {
        nonce = nonce;
        cipher = c;
        tag = t;
        layout = refl;
        nonce_length = length_nonce;
        cipher_length = length_c;
        tag_length = length_t;
        opened = opened;
      };
      buf = BufMut.clear (BufMut.set_as_mut c w.buf);
      buf_valid = clear-IsValid (set_as_mut-IsValid c (omega arith) v);
      buf_len = length-splice 0 c w.buf.buf (omega arith);
      buf_empty = (refl, refl, refl, refl);
      outcome =
          encrypt_and_write_run e w f c t v.available_le (omega arith) o at_end (omega arith)
            sealed;
    }
