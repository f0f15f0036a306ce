-- ===== src/Stream/ToEnd.antt =====
-- `Read::read_to_end` of the standard library: reads in pieces of `chunk` bytes until one is empty.
use encryptedfs.Prelude.{
  ℕ, zero, suc, ◌<◌, ◌≡◌, List, [], ◌++◌, append-nil, append_assoc, arith, ◌==◌, if◌then◌else◌,
  length, length-append, nil_of_length, Exec, pure, raise, ◌>>=◌, ok,
}
use encryptedfs.Io.{IoError, diverged}
use encryptedfs.Io.Contract.{ReadFn, IsReader}

unfoldable pub read_to_end : {S : Type 0} → ReadFn S → ℕ → ℕ → List ℕ → Exec IoError S (List ℕ)
read_to_end read chunk zero got = raise diverged
read_to_end read chunk (suc fuel) got = do
  bytes ← read chunk
  let again = read_to_end read chunk fuel (got ++ bytes)
  if length bytes == 0 then pure got else again

module _ {S : Type 0} {Ahead : S → List ℕ → Type 0} {read : ReadFn S} (reader : IsReader Ahead read)
    (chunk : ℕ) (room : 0 < chunk) where
  -- With more fuel than bytes ahead it ends, and returns them all.
  pub read_to_end_lem :
      (fuel : ℕ) (got : List ℕ) (s : S) (rest : List ℕ)
      → Ahead s rest
      → length rest < fuel
      → let (o, s') = read_to_end read chunk fuel got s in (o ≡ ok (got ++ rest)) × Ahead s' []
  unfolding read_to_end
  read_to_end_lem zero got s rest a h = absurd (omega arith)
  read_to_end_lem (suc fuel) got s rest a h =
      let r = reader.reads chunk s rest room a in
      let s' : S = (read chunk s).1 in
      ground (
        arith,
        r.result,
        r.split,
        r.ended,
        r.ahead,
        nil_of_length r.bytes,
        append-nil got,
        append_assoc got r.bytes r.after,
        length-append r.bytes r.after,
        read_to_end_lem fuel (got ++ r.bytes) s' r.after,
      )
