-- ===== src/Stream/Fill.antt =====
-- `fill_zeros` writes exactly that many zeros.
use encryptedfs.Prelude.{
  ℕ, zero, suc, ◌+◌, ◌-◌, ◌<◌, min, ◌≡◌, ap, List, ◌∷◌, ◌++◌, append-nil, append_assoc, arith,
  replicate, ok, ◌∙◌, [],
}
use encryptedfs.Io.Contract.{WriteAllFn, IsWriter}
use encryptedfs.Stream.{fill_zeros_from, fill_zeros}

pub replicate-add : (m n : ℕ) → replicate {A = ℕ} (m + n) 0 ≡ replicate m 0 ++ replicate n 0
replicate-add zero n = let e : 0 + n ≡ n = omega arith in rw e
replicate-add (suc m) n =
    let e : suc m + n ≡ suc (m + n) = omega arith in rw e (ap (λ l. 0 ∷ l) (replicate-add m n))

module _ {W : Type 0} {Written : W → List ℕ → Type 0} {Fits : List ℕ → Type 0}
    {write_all : WriteAllFn W} (writer : IsWriter Written Fits write_all) (buf_size len : ℕ)
    (room : 0 < buf_size) where
  fill_zeros_from_lem :
      (fuel pos : ℕ) (w : W) (before : List ℕ)
      → Written w before
      → Fits (before ++ replicate (len - pos) 0)
      → pos < len
      → len - pos < fuel
      → let (r, w') = fill_zeros_from buf_size write_all len fuel pos w in
        (r ≡ ok tt) × Written w' (before ++ replicate (len - pos) 0)
  unfolding fill_zeros_from
  fill_zeros_from_lem zero pos w before wr fits lt h = absurd (omega arith)
  fill_zeros_from_lem (suc fuel) pos w before wr fits lt h =
      let n : ℕ = min buf_size (len - pos) in
      let left : ℕ = len - (pos + n) in
      let e : len - pos ≡ n + left = omega arith in
      let cut : replicate {A = ℕ} (len - pos) 0 ≡ replicate n 0 ++ replicate left 0 =
        ap (λ k. replicate k 0) e ∙ replicate-add n left in
      let fits' : Fits ((before ++ replicate n 0) ++ replicate left 0) =
        rw append_assoc (rw cut at fits) in
      let (done, wr') =
        writer.writes (replicate n 0) w before wr
          (writer.prefix (before ++ replicate n 0) _ fits') in
      let w' : W = (write_all (replicate n 0) w).1 in
      let none_left : left ≡ 0 → replicate {A = ℕ} left 0 ≡ [] = λ z. ap (λ k. replicate k 0) z in
      ground (
        arith,
        done,
        wr',
        cut,
        none_left,
        append-nil {A = ℕ} (replicate n 0),
        append_assoc before (replicate n 0) (replicate left 0),
        fill_zeros_from_lem fuel (pos + n) w' (before ++ replicate n 0) wr' fits',
      )

  -- Over any writer that keeps its contract and has room for them, with some buffer, `fill_zeros`
  -- ends and gives it `len` zeros.
  pub fill_zeros_lem :
      (w : W) (before : List ℕ)
      → Written w before
      → Fits (before ++ replicate len 0)
      → let (r, w') = fill_zeros buf_size write_all len w in
        (r ≡ ok tt) × Written w' (before ++ replicate len 0)
  unfolding fill_zeros
  fill_zeros_lem w before wr fits =
      let e : len - 0 ≡ len = omega arith in
      ground (arith, e, append-nil before, fill_zeros_from_lem (suc len) 0 w before wr (rw e fits))
