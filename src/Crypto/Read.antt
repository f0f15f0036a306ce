-- ===== src/Crypto/Read.antt =====
-- src/crypto/read.rs, `RingCryptoRead`: gives out the plaintext of a stream, block by block.
pub mod Ahead
pub mod Length
pub mod Seek
use encryptedfs.Prelude.{
  ℕ, Option, none, some, List, ◌==◌, if◌then◌else◌, length, replicate, Exec, pure, ◌>>=◌, ◌>>◌, ok,
  err, ◌+◌, ◌-◌, ◌*◌, ◌/◌, ◌%◌, ◌^◌,
}
use encryptedfs.Io.{IoError, panicked}
use encryptedfs.Io.File.{File}
use encryptedfs.Io.File
use encryptedfs.BufMut
use encryptedfs.BufMut.{BufMut}
use encryptedfs.Crypto.{ciphertext_block_size, Env}
use encryptedfs.Crypto.Decrypt.{decrypt_block, Decrypter}

pub record RingCryptoRead : Type 0 where
  pub input : Option File
  pub key : List ℕ
  pub buf : BufMut
  pub last_nonce : Option (List ℕ)
  pub block_index : ℕ

-- What `decrypt_block!` is given, and what it leaves.
abbrev pub decrypter : File → RingCryptoRead → Decrypter
decrypter f r = record {
  block_index = r.block_index;
  buf = r.buf;
  input = f;
  last_nonce = r.last_nonce;
  key = r.key;
}

abbrev pub put_back : Decrypter → RingCryptoRead → RingCryptoRead
put_back d r = record r {
  input = some d.input;
  buf = d.buf;
  last_nonce = d.last_nonce;
  block_index = d.block_index;
}

abbrev pub read_buf : ℕ → Exec IoError RingCryptoRead (List ℕ)
read_buf n r = let (o, b) = BufMut.read n r.buf in (o, record r { buf = b })

module _ (e : Env) where
  unfoldable pub new : File → List ℕ → RingCryptoRead
  new reader key = record {
    input = some reader;
    key = key;
    buf = BufMut.new (replicate (ciphertext_block_size e) 0);
    last_nonce = none;
    block_index = 0;
  }

  -- `decrypt_block!` on the reader's own fields; without an input it panics.
  unfoldable pub next_block : Exec IoError RingCryptoRead (Unit {0})
  next_block r = elim r.input [
    | none ↦ (err panicked, r)
    | some f ↦ let (o, d) = decrypt_block e (decrypter f r) in (o, put_back d r)
  ]

  unfoldable pub read : ℕ → Exec IoError RingCryptoRead (List ℕ)
  read n = do
    bytes ← read_buf n
    let more = do next_block; read_buf n
    if length bytes == 0 then more else pure bytes

  -- `pos`, with NONCE_LEN taken off the read position, down to 0.
  unfoldable pub position : RingCryptoRead → ℕ
  position r = (r.block_index - 1) * e.block_size + (r.buf.pos_read - e.nonce_len)

  -- The length of the plaintext, from that of the ciphertext; the subtraction wraps.
  unfoldable pub get_plaintext_len : Exec IoError RingCryptoRead ℕ
  get_plaintext_len r = elim r.input [
    | none ↦ (err panicked, r)
    | some f ↦
        (let n : ℕ = File.stream_len f in
          let more : ℕ =
            (n / ciphertext_block_size e + 1) * (ciphertext_block_size e - e.block_size) in
          (ok (if n == 0 then 0 else (n + 2 ^ 64 - more) % 2 ^ 64), r))
  ]

-- `into_inner` takes the input out.
unfoldable pub into_inner : Exec IoError RingCryptoRead File
into_inner r = elim r.input [
  | none ↦ (err panicked, r)
  | some f ↦ (ok f, record r { input = none })
]
