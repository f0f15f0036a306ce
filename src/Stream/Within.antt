-- ===== src/Stream/Within.antt =====
-- `seek_forward` over bytes that are there: the reader is asked for no byte beyond them.
use encryptedfs.Prelude.{
  ℕ, zero, suc, ◌+◌, ◌-◌, ◌%◌, ◌^◌, ◌≤◌, ◌<◌, ◌≡◌, ap, Bool, List, arith, ltb, if◌then◌else◌,
  length, drop, length-append, nil_of_length, drop_none, drop_all, drop-append, ok,
}
use encryptedfs.Io.Contract.{ReadFn, Reads}
use encryptedfs.Stream.{seek_forward_from, seek_forward}

-- A reader that keeps the contract as long as there are bytes ahead.
pub record IsSource {S : Type 0} (Ahead : S → List ℕ → Type 0) (read : ReadFn S) : Type 0 where
  pub reads :
      (n : ℕ) (s : S) (rest : List ℕ)
      → 0 < n
      → 0 < length rest
      → Ahead s rest
      → Reads Ahead n rest (read n s)

module _ {S : Type 0} {Ahead : S → List ℕ → Type 0} {read : ReadFn S} (source : IsSource Ahead read)
    (buf_size len : ℕ) (stop_on_eof : Bool) (room : 0 < buf_size)
    (small : len + buf_size < 2 ^ 64) where
  seek_forward_from-within :
      (fuel pos : ℕ) (s : S) (rest : List ℕ)
      → Ahead s rest
      → pos < len
      → len - pos ≤ length rest
      → len - pos < fuel
      → let (r, s') = seek_forward_from buf_size read len stop_on_eof fuel pos s in
        (r ≡ ok len) × Ahead s' (drop (len - pos) rest)
  unfolding seek_forward_from
  seek_forward_from-within zero pos s rest a lt there h = absurd (omega arith)
  seek_forward_from-within (suc fuel) pos s rest a lt there h =
      let n : ℕ = if ltb len ((pos + buf_size) % 2 ^ 64) then len - pos else buf_size in
      let pos_n : 0 < n = ground arith in
      let n_le : n ≤ len - pos = ground arith in
      let r = source.reads n s rest pos_n (omega arith) a in
      let s' : S = (read n s).1 in
      ground (
        arith,
        r.result,
        r.split,
        r.bound,
        r.ended,
        r.ahead,
        nil_of_length r.bytes,
        length-append r.bytes r.after,
        drop-append (len - pos) r.bytes r.after,
        drop_all (len - pos) r.bytes,
        drop_none (len - pos - length r.bytes) r.after,
        ap (λ k. drop k r.after) {x = len - pos - length r.bytes} {y = len - (pos + length r.bytes)}
            (omega arith),
        seek_forward_from-within fuel (pos + length r.bytes) s' r.after,
      )

  -- Over a reader that keeps the contract while there are bytes ahead, with at least `len` of them,
  -- `seek_forward` skips `len` bytes.
  pub seek_forward-within :
      (s : S) (rest : List ℕ)
      → Ahead s rest
      → len ≤ length rest
      → let (r, s') = seek_forward buf_size read len stop_on_eof s in
        (r ≡ ok len) × Ahead s' (drop len rest)
  unfolding seek_forward
  seek_forward-within s rest a there =
      let e : len - 0 ≡ len = omega arith in
      ground (arith, e, seek_forward_from-within (suc len) 0 s rest a, drop_none len rest)
