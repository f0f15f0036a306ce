-- ===== src/Crypto/Decrypt/Authentic.antt =====
-- `decrypt_block!` over any input, also one that was cut or forged.
use encryptedfs.Prelude.{
  ℕ, ◌+◌, ◌≤◌, ◌<◌, ◌≡◌, ◌≢◌, sym, some, none, Option, Option-cases, Bool-cases, List, [], ◌∷◌,
  arith, ltb, ◌==◌, if◌then◌else◌, length, take, drop, length-take, length-drop, length-splice,
  splice, ok, err, ap, ◌∙◌, ◌⊎◌, inl, inr, nil_of_length,
}
use encryptedfs.Io.{other, panicked}
use encryptedfs.BufMut
use encryptedfs.BufMut.Valid.{IsValid}
use encryptedfs.Crypto.{aad_of, Env, IsEnv, ciphertext_block_size}
use encryptedfs.Crypto.Decrypt.{open_block, accept_block, Decrypter, decrypt_block}
use encryptedfs.Crypto.Decrypt.Fill.{left, fill_lem}
use encryptedfs.Crypto.Decrypt.Open.{accept_block_lem, unread-accepted}

module _ (e : Env) (d : Decrypter) (env : IsEnv e) (v : IsValid d.buf)
    (len : length d.buf.buf ≡ ciphertext_block_size e) (burst : 0 < d.input.burst) where
  -- What the input gives for a block, and what the AEAD makes of it.
  abbrev pub given : List ℕ
  given = take (length d.buf.buf) (left d.input)

  abbrev pub opening : Option (List ℕ)
  opening =
      e.open_within d.key (take e.nonce_len given) (aad_of d.block_index) (drop e.nonce_len given)

  abbrev unread : Decrypter → List ℕ
  unread d' = BufMut.as_ref_read_available d'.buf

  nothing_given : given ≡ [] → ((decrypt_block e d).0 ≡ ok tt) × (unread (decrypt_block e d).1 ≡ [])
  unfolding decrypt_block BufMut.clear
  nothing_given none_left = ground (arith, fill_lem (length d.buf.buf) d.input burst, none_left)

  too_short :
      0 < length given
      → length given < e.nonce_len
      → ((decrypt_block e d).0 ≡ err panicked) × (unread (decrypt_block e d).1 ≡ [])
  unfolding decrypt_block open_block BufMut.clear
  too_short some_bytes short = ground (arith, fill_lem (length d.buf.buf) d.input burst)

  refused :
      0 < length given
      → e.nonce_len ≤ length given
      → opening ≡ none
      → ((decrypt_block e d).0 ≡ err other) × (unread (decrypt_block e d).1 ≡ [])
  unfolding decrypt_block open_block BufMut.clear
  refused some_bytes long closed = ground (arith, fill_lem (length d.buf.buf) d.input burst, closed)

  -- The state with the plaintext `p` in the buffer.
  abbrev filled_with : List ℕ → Decrypter
  filled_with p = record d {
    buf = record (BufMut.clear d.buf) { buf = splice e.nonce_len p (splice 0 given d.buf.buf) };
    input = record d.input { cursor = d.input.cursor + length given };
    last_nonce = some (take e.nonce_len given);
  }

  opened_to :
      (p : List ℕ)
      → 0 < length given
      → e.nonce_len ≤ length given
      → opening ≡ some p
      → decrypt_block e d ≡ (
          if length p == 0
          then (ok tt, filled_with p)
          else accept_block e (length p) (filled_with p))
  unfolding decrypt_block open_block BufMut.clear
  opened_to p some_bytes long opened =
      ground (arith, fill_lem (length d.buf.buf) d.input burst, opened)

  accepted_with :
      (p : List ℕ)
      → 0 < length p
      → length p + e.tag_len ≡ length (drop e.nonce_len given)
      → 0 < length given
      → e.nonce_len ≤ length given
      → opening ≡ some p
      → ((decrypt_block e d).0 ≡ ok tt) × (unread (decrypt_block e d).1 ≡ p)
  unfolding BufMut.clear
  accepted_with p some_plain fits some_bytes long opened =
      let room : 0 + length given ≤ length d.buf.buf =
        omega (arith, length-take (length d.buf.buf) (left d.input)) in
      let plain_fits : e.nonce_len + length p ≤ length d.buf.buf =
        omega (arith, length-drop e.nonce_len given) in
      let size1 : length (splice 0 given d.buf.buf) ≡ length d.buf.buf =
        length-splice 0 given d.buf.buf room in
      let size : length (splice e.nonce_len p (splice 0 given d.buf.buf)) ≡ length d.buf.buf =
        length-splice e.nonce_len p (splice 0 given d.buf.buf) (omega arith) ∙ size1 in
      let d' : Decrypter = filled_with p in
      let accepts = accept_block_lem e (length p) d' (omega (arith, size, v.small)) (omega arith) in
      let plain =
        unread-accepted e p (record d.buf { buf = splice 0 given d.buf.buf }) (omega arith) in
      let run : decrypt_block e d ≡ accept_block e (length p) d' =
        opened_to p some_bytes long opened ∙ ground arith in
      (
        ap (λ o. o.0) run ∙ ap (λ o. o.0) accepts,
        ap (λ o. unread o.1) run ∙ ap (λ o. unread o.1) accepts ∙ plain,
      )

  opened_empty :
      0 < length given
      → e.nonce_len ≤ length given
      → opening ≡ some []
      → ((decrypt_block e d).0 ≡ ok tt) × (unread (decrypt_block e d).1 ≡ [])
  unfolding BufMut.clear
  opened_empty some_bytes long opened =
      let run = opened_to [] some_bytes long opened in (ap (λ o. o.0) run, ap (λ o. unread o.1) run)

  opened_plain :
      (p : List ℕ)
      → 0 < length given
      → e.nonce_len ≤ length given
      → opening ≡ some p
      → ((decrypt_block e d).0 ≡ ok tt) × (unread (decrypt_block e d).1 ≡ p)
  opened_plain [] some_bytes long opened = opened_empty some_bytes long opened
  opened_plain (x ∷ xs) some_bytes long opened =
      accepted_with (x ∷ xs) (omega arith)
        (env.length-open_within d.key (take e.nonce_len given) (aad_of d.block_index)
          (drop e.nonce_len given) (x ∷ xs) opened)
        some_bytes long opened

  -- With the laws of the AEAD, a valid buffer of the block's length and an input that gives bytes,
  -- whatever they are: after `decrypt_block!` either the input was at its end, the call has succeeded
  -- and nothing can be read from the buffer; or it has succeeded and what can be read is what the
  -- AEAD opened under the nonce in front and the current index; or it has not succeeded and nothing
  -- can be read. So no byte is given out that was not opened.
  pub decrypt_block-unread :
      let (r, d') = decrypt_block e d in
      ((r ≡ ok tt) × (given ≡ []) × (unread d' ≡ []))
      ⊎ (((r ≡ ok tt) × (opening ≡ some (unread d'))) ⊎ ((r ≢ ok tt) × (unread d' ≡ [])))
  decrypt_block-unread = elim (Bool-cases (length given == 0)) [
    | inl none_left ↦
        (let empty = nil_of_length given (ground arith) in
          let (done, nothing) = nothing_given empty in inl (done, empty, nothing))
    | inr some_left ↦ inr (elim (Bool-cases (ltb (length given) e.nonce_len)) [
      | inl short ↦
          (let (failed, nothing) = too_short (ground arith) (ground arith) in
            inr (λ z. ground (arith, z, failed), nothing))
      | inr long ↦ elim (Option-cases opening) [
        | inl closed ↦
            (let (failed, nothing) = refused (ground arith) (ground arith) closed in
              inr (λ z. ground (arith, z, failed), nothing))
        | inr (p, opened) ↦
            (let (done, plain) = opened_plain p (ground arith) (ground arith) opened in
              inl (done, opened ∙ ap some (sym plain)))
      ]
    ])
  ]
