-- ===== src/Crypto/Decrypt/Fill.antt =====
-- The inner loop of `decrypt_block!` reads as much as there is, up to a whole block, however short
-- the single reads are.
use encryptedfs.Prelude.{
  ℕ, zero, suc, ◌+◌, ◌-◌, ◌≤◌, ◌<◌, min, ◌≡◌, List, ◌++◌, arith, length, take, drop, length-take,
  nil_of_length, ok, inl, inr, [], append-nil, ◌==◌, Bool-cases, length-append, ap, ◌∙◌,
  append_assoc, drop-drop, take_pieces,
}
use encryptedfs.Io.File
use encryptedfs.Io.File.{File}
use encryptedfs.Crypto.Decrypt.{fill_from, fill}

-- The bytes of a file from its cursor on.
abbrev pub left : File → List ℕ
left f = drop f.cursor f.content

fill_from_lem :
    (fuel len : ℕ) (got : List ℕ) (f : File)
    → 0 < f.burst
    → length got ≤ len
    → len - length got < fuel
    → let block = take (len - length got) (left f) in
      fill_from fuel len got f ≡ (ok (got ++ block), record f { cursor = f.cursor + length block })
unfolding fill_from File.read
fill_from_lem zero len got f b l h = absurd (omega arith)
fill_from_lem (suc fuel) len got f b l h =
    let n : ℕ = len - length got in
    let m : ℕ = min n f.burst in
    let bytes : List ℕ = take m (left f) in
    let k : ℕ = length bytes in
    let f' : File = record f { cursor = f.cursor + k } in
    let block : List ℕ = take n (left f) in
    elim (Bool-cases (k == 0)) [
      | inl stop ↦
          (let no_block : block ≡ [] =
              nil_of_length block
                (ground (arith, length-take m (left f), length-take n (left f))) in
            rw stop (ground (arith, no_block, append-nil got, nil_of_length bytes)))
      | inr more ↦
          (let pos_k : 0 < k = ground arith in
            let k_le : k ≤ n = omega (arith, length-take m (left f)) in
            let rest : n - k ≡ len - length (got ++ bytes) =
              omega (arith, length-append got bytes) in
            let cut : block ≡ bytes ++ take (len - length (got ++ bytes)) (left f') =
              (take_pieces m n (left f) (omega arith)
                ∙ ap (λ l. bytes ++ take (n - k) l) (drop-drop k f.cursor f.content)
                ∙ ap (λ q. bytes ++ take q (left f')) rest) in
            rw
              (
                more,
                fill_from_lem fuel len (got ++ bytes) f' b (omega (arith, length-append got bytes))
                    (omega (arith, length-append got bytes)),
              )
              (ground (
                arith,
                cut,
                length-append bytes (take (len - length (got ++ bytes)) (left f')),
                append_assoc got bytes (take (len - length (got ++ bytes)) (left f')),
              )))
    ]

pub fill_lem :
    (len : ℕ) (f : File)
    → 0 < f.burst
    → let block = take len (left f) in
      fill len f ≡ (ok block, record f { cursor = f.cursor + length block })
fill_lem len f b =
    let z : len - 0 ≡ len = omega arith in
    rw (fill_from_lem (suc len) len [] f b (omega arith) (omega arith), z)
