-- ===== src/Stream/Skip.antt =====
-- `seek_forward` over a reader that keeps its contract.
use encryptedfs.Prelude.{
  ℕ, zero, suc, ◌+◌, ◌-◌, ◌%◌, ◌^◌, ◌≤◌, ◌<◌, ◌≡◌, Bool, List, arith, ltb, leb, if◌then◌else◌,
  length, drop, Result, ok, err, length-append, nil_of_length, drop_all, drop-append, ap, drop_none,
  drop-nil, false,
}
use encryptedfs.Io.{IoError, unexpected_eof}
use encryptedfs.Io.Contract.{ReadFn, IsReader}
use encryptedfs.Stream.{seek_forward_from, seek_forward, seek_forward_exact}

-- What a skip or a copy of `len` bytes that is at `pos`, with the bytes `rest` ahead, ends with.
abbrev pub reached : ℕ → Bool → ℕ → List ℕ → Result IoError ℕ
reached len stop_on_eof pos rest =
    if leb (len - pos) (length rest)
    then ok len
    else if stop_on_eof
    then ok (pos + length rest)
    else err unexpected_eof

module _ {S : Type 0} {Ahead : S → List ℕ → Type 0} {read : ReadFn S} (reader : IsReader Ahead read)
    (buf_size len : ℕ) (stop_on_eof : Bool) (room : 0 < buf_size)
    (small : len + buf_size < 2 ^ 64) where
  seek_forward_from_lem :
      (fuel pos : ℕ) (s : S) (rest : List ℕ)
      → Ahead s rest
      → pos < len
      → len - pos < fuel
      → let (r, s') = seek_forward_from buf_size read len stop_on_eof fuel pos s in
        (r ≡ reached len stop_on_eof pos rest) × Ahead s' (drop (len - pos) rest)
  unfolding seek_forward_from
  seek_forward_from_lem zero pos s rest a lt h = absurd (omega arith)
  seek_forward_from_lem (suc fuel) pos s rest a lt h =
      let n : ℕ = if ltb len ((pos + buf_size) % 2 ^ 64) then len - pos else buf_size in
      let pos_n : 0 < n = ground arith in
      let n_le : n ≤ len - pos = ground arith in
      let r = reader.reads n s rest pos_n a in
      let s' : S = (read n s).1 in
      ground (
        arith,
        r.result,
        r.split,
        r.bound,
        r.ended,
        r.ahead,
        nil_of_length r.bytes,
        length-append r.bytes r.after,
        drop-append (len - pos) r.bytes r.after,
        drop_all (len - pos) r.bytes,
        drop_none (len - pos - length r.bytes) r.after,
        drop-nil {A = ℕ} (len - pos),
        ap (λ k. drop k r.after) {x = len - pos - length r.bytes} {y = len - (pos + length r.bytes)}
            (omega arith),
        seek_forward_from_lem fuel (pos + length r.bytes) s' r.after,
      )

  -- Over any reader that keeps its contract, with some buffer and a length that with the buffer
  -- stays below 2^64, `seek_forward` skips `len` bytes and returns `len` if that many are ahead;
  -- if not, it skips them all and returns their number, or fails with an unexpected end of file
  -- where it is not to stop there. The loop always ends.
  pub seek_forward_lem :
      (s : S) (rest : List ℕ)
      → Ahead s rest
      → let (r, s') = seek_forward buf_size read len stop_on_eof s in
        (r ≡ reached len stop_on_eof 0 rest) × Ahead s' (drop len rest)
  unfolding seek_forward
  seek_forward_lem s rest a =
      let e : len - 0 ≡ len = omega arith in
      ground (arith, e, seek_forward_from_lem (suc len) 0 s rest a)

-- Over any reader that keeps its contract, with some buffer and a length that with the buffer
-- stays below 2^64, `seek_forward_exact` skips `len` bytes if that many are ahead; if not, it
-- skips them all and fails with an unexpected end of file. The loop always ends.
pub seek_forward_exact_lem :
    {S : Type 0} {Ahead : S → List ℕ → Type 0} {read : ReadFn S} (reader : IsReader Ahead read)
    (buf_size len : ℕ)
    → 0 < buf_size
    → len + buf_size < 2 ^ 64
    → (s : S) (rest : List ℕ) → Ahead s rest
    → let (r, s') = seek_forward_exact buf_size read len s in
      (r ≡ (if leb len (length rest) then ok tt else err unexpected_eof)) × Ahead s' (drop len rest)
unfolding seek_forward_exact
seek_forward_exact_lem reader buf_size len room small s rest a =
    let z : len - 0 ≡ len = omega arith in
    let skipped = seek_forward_lem reader buf_size len false room small s rest a in
    ground (arith, z, skipped.0, skipped.1)
