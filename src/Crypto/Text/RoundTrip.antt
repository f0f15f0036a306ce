-- ===== src/Crypto/Text/RoundTrip.antt =====
-- Decrypting a text or a file name that was encrypted.
use encryptedfs.Prelude.{
  ℕ, suc, ◌^◌, ◌<◌, ◌≡◌, refl, sym, ap, subst, true, false, some, List, [], ◌∷◌, ◌++◌, append-nil,
  arith, length, ok,
}
use encryptedfs.Io.File.{File}
use encryptedfs.Stream.ToEnd.{read_to_end_lem}
use encryptedfs.Crypto.{Env, IsEnv}
use encryptedfs.Crypto.Read
use encryptedfs.Crypto.Format.{length-Sealed}
use encryptedfs.Crypto.Write.Holds.{HasRoom}
use encryptedfs.Crypto.Write.Finish.{Stores}
use encryptedfs.Crypto.Read.Ahead.{Ahead, read_reads}
use encryptedfs.Crypto.RoundTrip.{write_pieces, write_pieces_lem, reader_at_start}
use encryptedfs.Crypto.Text.{
  Codec, vec_max, cursor_of, encrypt, decrypt, read_to_string, encrypt_file_name, decrypt_file_name,
  normalize, is_special, is_dots, slash, bar,
}
use encryptedfs.Crypto.Text.Utf8.{is_utf8}
use encryptedfs.Crypto.Text.Replace.{replace, replace-replace, replace-Free, Free}

-- What base64 documents: decoding undoes encoding, and the alphabet has no `|`.
pub record IsCodec (codec : Codec) : Type 0 where
  pub decode-encode : (v : List ℕ) → codec.decode (codec.encode v) ≡ some v
  pub no_bar : (v : List ℕ) → Free bar (codec.encode v)

module _ (e : Env) (codec : Codec) (key : List ℕ) (env : IsEnv e) (laws : IsCodec codec) where
  -- Encrypting a text that memory has room for succeeds, with a file that stores it.
  encrypt_lem :
      (s : List ℕ)
      → HasRoom e vec_max (length s)
      → (f : File) × (encrypt e codec key s ≡ ok (codec.encode f.content)) × Stores e key s f
  unfolding encrypt write_pieces
  encrypt_lem s room =
      let one : s ++ [] ≡ s = append-nil s in
      let (f, done, stores) =
        write_pieces_lem e vec_max key env (omega arith) (cursor_of []) (s ∷ []) refl refl refl
          (subst (λ l. HasRoom e vec_max (length l)) (sym one) room) in
      (f, ground (arith, done), subst (λ l. Stores e key l f) one stores)

  read_to_string_lem :
      (chunk : ℕ) (s : List ℕ) (f : File)
      → 0 < chunk
      → is_utf8 s ≡ true
      → length s < 2 ^ 63
      → Stores e key s f
      → read_to_string e codec key chunk f.content ≡ ok s
  unfolding read_to_string
  read_to_string_lem chunk s f some_chunk utf8 fits stores =
      let g : File = cursor_of f.content in
      let stores' : Stores e key s g = record {
        blocks = stores.blocks;
        sealed = stores.sealed;
        cut = stores.cut;
        whole = stores.whole;
      } in
      let start : Ahead e key (Read.new e g key) s =
        reader_at_start e key env (omega arith) stores' fits in
      let all =
        read_to_end_lem (read_reads e key env) chunk some_chunk (suc (length f.content)) []
          (Read.new e g key) s start
          (omega (
            arith,
            length-Sealed e key 0 stores.blocks f.content stores.sealed,
            ap length stores.whole,
          )) in
      ground (arith, all.0, utf8)

  -- With the laws of the AEAD and of base64: a text that is valid UTF-8, shorter than 2^63 bytes,
  -- and that a `Vec` has room for once encrypted, is what decrypting its encryption with the same
  -- key gives, whatever the nonces and the size of the reads.
  pub decrypt-encrypt :
      (chunk : ℕ) (s : List ℕ)
      → 0 < chunk
      → is_utf8 s ≡ true
      → length s < 2 ^ 63
      → HasRoom e vec_max (length s)
      → (c : List ℕ) × (encrypt e codec key s ≡ ok c) × (decrypt e codec key chunk c ≡ ok s)
  unfolding decrypt
  decrypt-encrypt chunk s some_chunk utf8 fits room =
      let (f, done, stores) = encrypt_lem s room in
      (
        codec.encode f.content,
        done,
        ground (
          arith,
          laws.decode-encode f.content,
          read_to_string_lem chunk s f some_chunk utf8 fits stores,
        ),
      )

  -- With the laws of the AEAD and of base64: a file name other than the four names of dots, valid
  -- as UTF-8 and shorter than 2^63 bytes once its separators are spaces, and that a `Vec` has room
  -- for, is encrypted to a name without `/`, and decrypting that gives the name with spaces for
  -- its separators.
  pub decrypt_file_name-encrypt_file_name :
      (chunk : ℕ) (name : List ℕ)
      → is_special name ≡ false
      → is_dots name ≡ false
      → 0 < chunk
      → is_utf8 (normalize name) ≡ true
      → length (normalize name) < 2 ^ 63
      → HasRoom e vec_max (length (normalize name))
      → (c : List ℕ) × (encrypt_file_name e codec key name ≡ ok c)
        × Free slash c
        × (decrypt_file_name e codec key chunk c ≡ ok (normalize name))
  unfolding encrypt_file_name decrypt_file_name decrypt
  decrypt_file_name-encrypt_file_name chunk name not_special not_dots some_chunk utf8 fits room =
      let (f, done, stores) = encrypt_lem (normalize name) room in
      let v : List ℕ = codec.encode f.content in
      (
        replace slash bar v,
        ground (arith, not_special, not_dots, done),
        replace-Free slash bar v (omega arith),
        ground (
          arith,
          replace-replace slash bar v (laws.no_bar f.content),
          laws.decode-encode f.content,
          read_to_string_lem chunk (normalize name) f some_chunk utf8 fits stores,
        ),
      )
