-- ===== src/Stream/Copy.antt =====
-- `copy` from a reader to a writer, and `read` of a whole slice.
use encryptedfs.Prelude.{
  ℕ, zero, suc, ◌+◌, ◌-◌, ◌<◌, min, ◌≡◌, Bool, List, ◌++◌, append-nil, append_assoc, arith, length,
  take, drop, length-append, nil_of_length, take_all, drop_all, take-append, drop-append, ok, ap,
  [], take_none, drop_none, take-nil, drop-nil, ◌∙◌, false, leb, if◌then◌else◌, err,
}
use encryptedfs.Io.{unexpected_eof}
use encryptedfs.Io.Contract.{ReadFn, WriteAllFn, IsReader, IsWriter}
use encryptedfs.Stream.Skip.{reached}
use encryptedfs.Stream.{copy_from, copy, read_from, read as read_whole, copy_exact}

module _ {R W : Type 0} {Ahead : R → List ℕ → Type 0} {read : ReadFn R}
    (reader : IsReader Ahead read) {Written : W → List ℕ → Type 0} {Fits : List ℕ → Type 0}
    {write_all : WriteAllFn W} (writer : IsWriter Written Fits write_all) (buf_size len : ℕ)
    (stop_on_eof : Bool) (room : 0 < buf_size) where
  copy_from_lem :
      (fuel pos : ℕ) (s : R × W) (rest before : List ℕ)
      → Ahead s.0 rest
      → Written s.1 before
      → Fits (before ++ take (len - pos) rest)
      → pos < len
      → len - pos < fuel
      → let (o, s') = copy_from buf_size read write_all len stop_on_eof fuel pos s in
        (o ≡ reached len stop_on_eof pos rest)
        × Ahead s'.0 (drop (len - pos) rest)
        × Written s'.1 (before ++ take (len - pos) rest)
  unfolding copy_from
  copy_from_lem zero pos s rest before a wr fits lt h = absurd (omega arith)
  copy_from_lem (suc fuel) pos (s, w) rest before a wr fits lt h =
      let n' : ℕ = len - pos in
      let n : ℕ = min buf_size (len - pos) in
      let r = reader.reads n s rest (omega arith) a in
      let s' : R = (read n s).1 in
      let cut : take n' rest ≡ r.bytes ++ take (n' - length r.bytes) r.after =
        ap (take n') r.split
        ∙ take-append n' r.bytes r.after
        ∙ ap (λ l. l ++ take (n' - length r.bytes) r.after)
            (take_all n' r.bytes (omega (arith, r.bound))) in
      let fits' : Fits ((before ++ r.bytes) ++ take (n' - length r.bytes) r.after) =
        rw append_assoc (rw cut at fits) in
      let (done, wr') =
        writer.writes r.bytes w before wr (writer.prefix (before ++ r.bytes) _ fits') in
      let w' : W = (write_all r.bytes w).1 in
      let steps : n' - length r.bytes ≡ len - (pos + length r.bytes) = omega arith in
      let fits'' : Fits ((before ++ r.bytes) ++ take (len - (pos + length r.bytes)) r.after) =
        rw (← steps) fits' in
      ground (
        arith,
        r.result,
        r.split,
        r.bound,
        r.ended,
        r.ahead,
        done,
        wr',
        cut,
        nil_of_length r.bytes,
        append-nil before,
        append_assoc before r.bytes (take (n' - length r.bytes) r.after),
        append-nil r.bytes,
        length-append r.bytes r.after,
        drop-append n' r.bytes r.after,
        drop_all n' r.bytes,
        drop_none (n' - length r.bytes) r.after,
        take_none (n' - length r.bytes) r.after,
        drop-nil {A = ℕ} n',
        take-nil {A = ℕ} n',
        ap (λ k. drop k r.after) steps,
        ap (λ k. take k r.after) steps,
        copy_from_lem fuel (pos + length r.bytes) (s', w') r.after (before ++ r.bytes) r.ahead wr'
            fits'',
      )

  -- Between a reader and a writer that keep their contracts, with some buffer and room for the
  -- bytes, `copy` ends, and gives the writer the first `len` bytes ahead of the reader, or all if
  -- there are fewer. It returns how many, or, if there are fewer and it is not to stop there,
  -- fails with an unexpected end of file.
  pub copy_lem :
      (s : R × W) (rest before : List ℕ)
      → Ahead s.0 rest
      → Written s.1 before
      → Fits (before ++ take len rest)
      → let (o, s') = copy buf_size read write_all len stop_on_eof s in
        (o ≡ reached len stop_on_eof 0 rest)
        × Ahead s'.0 (drop len rest)
        × Written s'.1 (before ++ take len rest)
  unfolding copy
  copy_lem s rest before a wr fits =
      let e : len - 0 ≡ len = omega arith in
      ground (arith, e, append-nil before, copy_from_lem (suc len) 0 s rest before a wr (rw e fits))

-- Between a reader and a writer that keep their contracts, with some buffer and room for the
-- bytes, `copy_exact` ends, and gives the writer the first `len` bytes ahead of the reader, or all
-- if there are fewer, in which case it fails with an unexpected end of file.
pub copy_exact_lem :
    {R W : Type 0} {Ahead : R → List ℕ → Type 0} {read : ReadFn R} (reader : IsReader Ahead read)
    {Written : W → List ℕ → Type 0} {Fits : List ℕ → Type 0} {write_all : WriteAllFn W}
    (writer : IsWriter Written Fits write_all) (buf_size len : ℕ)
    → 0 < buf_size
    → (s : R × W) (rest before : List ℕ) → Ahead s.0 rest
    → Written s.1 before
    → Fits (before ++ take len rest)
    → let (r, s') = copy_exact buf_size read write_all len s in
      (r ≡ (if leb len (length rest) then ok tt else err unexpected_eof))
      × Ahead s'.0 (drop len rest)
      × Written s'.1 (before ++ take len rest)
unfolding copy_exact
copy_exact_lem reader writer buf_size len room s rest before a wr fits =
    let z : len - 0 ≡ len = omega arith in
    let copied = copy_lem reader writer buf_size len false room s rest before a wr fits in
    ground (arith, z, copied.0, copied.1, copied.2)

module _ {R : Type 0} {Ahead : R → List ℕ → Type 0} {read : ReadFn R} (reader : IsReader Ahead read)
    (len : ℕ) where
  read_from_lem :
      (fuel : ℕ) (got : List ℕ) (s : R) (rest : List ℕ)
      → Ahead s rest
      → length got < len
      → len - length got < fuel
      → let (o, s') = read_from read len fuel got s in
        (o ≡ ok (got ++ take (len - length got) rest)) × Ahead s' (drop (len - length got) rest)
  unfolding read_from
  read_from_lem zero got s rest a lt h = absurd (omega arith)
  read_from_lem (suc fuel) got s rest a lt h =
      let n : ℕ = len - length got in
      let r = reader.reads n s rest (omega arith) a in
      let s' : R = (read n s).1 in
      let steps : n - length r.bytes ≡ len - length (got ++ r.bytes) =
        omega (arith, length-append got r.bytes) in
      ground (
        arith,
        r.result,
        r.split,
        r.bound,
        r.ended,
        r.ahead,
        nil_of_length r.bytes,
        append-nil got,
        append_assoc got r.bytes (take (len - length (got ++ r.bytes)) r.after),
        length-append got r.bytes,
        drop-append n r.bytes r.after,
        take-append n r.bytes r.after,
        ap (λ k. take k r.after) steps,
        ap (λ k. drop k r.after) steps,
        take_none (n - length r.bytes) r.after,
        drop_none (n - length r.bytes) r.after,
        take-nil {A = ℕ} n,
        drop-nil {A = ℕ} n,
        append-nil r.bytes,
        drop_all n r.bytes,
        take_all n r.bytes,
        read_from_lem fuel (got ++ r.bytes) s' r.after r.ahead,
      )

  -- Over a reader that keeps its contract, `stream_util::read` into a slice of length `len` that is
  -- not empty ends, and returns the first `len` bytes ahead, or all if there are fewer.
  pub read_whole_lem :
      (s : R) (rest : List ℕ)
      → 0 < len
      → Ahead s rest
      → let (o, s') = read_whole read len s in (o ≡ ok (take len rest)) × Ahead s' (drop len rest)
  unfolding read_whole
  read_whole_lem s rest pos_len a =
      let e : len - 0 ≡ len = omega arith in ground (arith, e, read_from_lem (suc len) [] s rest a)
