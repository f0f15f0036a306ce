-- ===== src/Crypto/Read/Seek.antt =====
-- src/crypto/read.rs, `impl Seek for RingCryptoRead`. `buf_size` is the constant of
-- src/stream_util.rs, whose `seek_forward` skips inside a block.
pub mod Place
pub mod Reads
pub mod Locate
pub mod Steps
pub mod Stands
pub mod Block
pub mod Target
pub mod Ends
use encryptedfs.Prelude.{
  ℕ, ◌+◌, ◌*◌, ◌/◌, ◌%◌, ◌^◌, min, Bool, true, not, ◌&&◌, none, some, ltb, ◌==◌, if◌then◌else◌,
  Exec, pure, raise, gets, ◌>>=◌, ◌>>◌, modify, ok, err,
}
use encryptedfs.Prelude.Int.{ltb_ℤ, as_u64, pos}
use encryptedfs.Io.{IoError, SeekFrom, start, panicked, invalid_input}
use encryptedfs.Io.File
use encryptedfs.BufMut
use encryptedfs.BufMut.{BufMut}
use encryptedfs.Io.File.{File}
use encryptedfs.Stream
use encryptedfs.Crypto.{ciphertext_block_size, Env}
use encryptedfs.Crypto.Read.{RingCryptoRead, position, get_plaintext_len, next_block, read}

-- A call on the buffer of a reader, and one on its input.
abbrev pub on_buf : {A : Type 0} → Exec IoError BufMut A → Exec IoError RingCryptoRead A
on_buf m r = let (o, b) = m r.buf in (o, record r { buf = b })

abbrev pub on_input : (File → File) → Exec IoError RingCryptoRead (Unit {0})
on_input g r = elim r.input [
  | none ↦ (err panicked, r)
  | some f ↦ (ok tt, record r { input = some (g f) })
]

module _ (e : Env) (buf_size : ℕ) where
  -- `seek_forward` on the reader itself, which stops at the end.
  abbrev pub skip : ℕ → Exec IoError RingCryptoRead ℕ
  skip len = Stream.seek_forward buf_size (read e) len true

  -- At the end of a full block, which is the start of the next one.
  abbrev pub at_full_block_end : RingCryptoRead → Bool
  at_full_block_end r = position e r % e.block_size == 0 && BufMut.available_read r.buf == 0

  -- The target lies in the block of the current position.
  unfoldable pub seek_in_block : ℕ → Exec IoError RingCryptoRead (Unit {0})
  seek_in_block new_pos r =
      let inside = do
        _ ← on_buf (BufMut.seek_read (start (e.nonce_len + new_pos % e.block_size)))
        pure tt
      in let ahead = (do _ ← skip (new_pos % e.block_size); pure tt) in
        if ltb 0 r.buf.available && not (at_full_block_end r) then inside r else ahead r

  -- The target lies in another block.
  unfoldable pub change_block : ℕ → Exec IoError RingCryptoRead (Unit {0})
  change_block new_pos = do
    let new_block_index = new_pos / e.block_size
    on_input (File.seek_to (new_block_index * ciphertext_block_size e % 2 ^ 64))
    modify (λ r. record r { buf = BufMut.clear r.buf; block_index = new_block_index })
    if new_pos % e.block_size == 0 then next_block e else pure tt
    _ ← skip (new_pos % e.block_size)
    pure tt

  -- The moves of `seek` to a target inside the plaintext.
  unfoldable pub seek_to : ℕ → Exec IoError RingCryptoRead ℕ
  seek_to new_pos r =
      let same = position e r / e.block_size == new_pos / e.block_size in
      let move = do if same then seek_in_block new_pos else change_block new_pos; gets (position e)
      in if position e r == new_pos then (ok new_pos, r) else move r

  unfoldable pub seek : SeekFrom → Exec IoError RingCryptoRead ℕ
  seek p = do
    plaintext_len ← get_plaintext_len e
    here ← gets (position e)
    let target = BufMut.seek_target p plaintext_len here
    if ltb_ℤ target (pos 0)
        then raise invalid_input
        else seek_to (min (as_u64 target) plaintext_len)
