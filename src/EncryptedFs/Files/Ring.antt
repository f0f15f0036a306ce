-- ===== src/EncryptedFs/Files/Ring.antt =====
-- The readers of open files are `RingCryptoRead`s, which keep the contract of a seekable reader.
use encryptedfs.Prelude.{
  ℕ, ◌+◌, ◌^◌, ◌≤◌, ◌<◌, min, ◌≡◌, refl, ap, ◌∙◌, subst, List, arith, length, flatten, ok,
}
use encryptedfs.Prelude.Int.{pos}
use encryptedfs.Io.{start, current}
use encryptedfs.BufMut.Seek.{target}
use encryptedfs.EncryptedFs.Files.{Streams}
use encryptedfs.EncryptedFs.Files.Slice.{IsSeekReader}
use encryptedfs.Crypto.Read.Ahead.{read_reads}
use encryptedfs.Crypto.{Env, IsEnv}
use encryptedfs.Crypto.Read.{RingCryptoRead, read}
use encryptedfs.Crypto.Read.Ahead.{Ahead}
use encryptedfs.Crypto.Read.Seek.{seek}
use encryptedfs.Crypto.Read.Seek.Stands.{Stands, Stands-Ahead}
use encryptedfs.Crypto.Read.Seek.Target.{readable, seek_lem}

-- `stream_position` is a seek by 0 from the current position. A reader reads the file that it has
-- open, whose bytes are the ones it is given.
unfoldable pub ring_reader :
    {W : Type 0} → Env → ℕ → Streams RingCryptoRead W → Streams RingCryptoRead W
ring_reader e buf_size streams = record streams {
  seek_read = λ bytes n. seek e buf_size (start n);
  read_position = λ bytes. seek e buf_size (current (pos 0));
  read_some = λ bytes. read e;
}

module _ (e : Env) (key : List ℕ) (blocks : List (List ℕ)) (env : IsEnv e) (buf_size : ℕ)
    (room : 0 < buf_size) (small : e.block_size + buf_size < 2 ^ 64)
    (wide : e.nonce_len + e.tag_len ≤ e.block_size) (some_nonce : 0 < e.nonce_len)
    (few : length (flatten blocks) < 2 ^ 63) where
  pub ring_reader-IsSeekReader :
      {W : Type 0} (streams : Streams RingCryptoRead W) (bytes : List ℕ)
      → IsSeekReader
          (ring_reader e buf_size streams)
          bytes
          (Stands e key blocks)
          (Ahead e key)
          (flatten blocks)
          (readable e key blocks env buf_size room small)
  unfolding ring_reader
  ring_reader-IsSeekReader streams bytes = record {
    seeks = λ n place r below stands.
        let (r', run, stands', _) =
          seek_lem e key blocks env buf_size room small wide some_nonce (start n) stands n few refl
            below in
        (r', run, stands');
    tells = λ place r le stands.
        let at : target (current (pos 0)) (readable e key blocks env buf_size room small) place
            ≡ pos place =
          ground arith in
        let same : min place (readable e key blocks env buf_size room small) ≡ place =
          omega (arith, le) in
        let (r', run, stands', _) =
          seek_lem e key blocks env buf_size room small wide some_nonce (current (pos 0)) stands
            place few at (omega (arith, le, few)) in
        (r', run ∙ ap (λ j. (ok j, r')) same, subst (Stands e key blocks r') same stands');
    ahead = λ place r stands. Stands-Ahead e key blocks stands;
    reads = read_reads e key env;
  }
