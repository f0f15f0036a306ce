-- ===== src/Crypto/Read/Seek/Locate.antt =====
-- The block that a position lies in.
use encryptedfs.Prelude.{
  ℕ, zero, suc, ◌+◌, ◌*◌, ◌/◌, ◌%◌, ◌≤◌, ◌<◌, ◌≡◌, refl, sym, ap, ◌∙◌, List, [], ◌∷◌, ◌++◌,
  append_assoc, arith, length, drop, flatten, length-append, length-drop, drop-append_left,
  drop-append_length, drop-drop,
}
use encryptedfs.Crypto.{ciphertext_block_size, Env}
use encryptedfs.Crypto.Format.{Sealed, IsBlocks}
use encryptedfs.Crypto.Read.Length.{div_unique, mod_unique}

pub parts : (n k o d : ℕ) → n ≡ k * d + o → o < d → (n / d ≡ k) × (n % d ≡ o)
parts n k o d z lt =
    (ap (λ j. j / d) z ∙ div_unique k o d lt, ap (λ j. j % d) z ∙ mod_unique k o d lt)

-- A position up to the end of the data lies in a block; at the end of a full last block it has to
-- be excluded, since that counts as the start of the next one.
pub locate :
    (size k o : ℕ) (blocks : List (List ℕ))
    → IsBlocks size blocks
    → 0 < length blocks
    → o < size
    → k * size + o ≤ length (flatten blocks)
    → (k * size + o ≡ length (flatten blocks) → 0 < o)
    → (p : List ℕ) × (ps : List (List ℕ)) × (drop k blocks ≡ p ∷ ps) × (o ≤ length p)
locate size k o [] cut some_blocks lt fits excluded = absurd (omega arith)
locate size zero o (p ∷ []) cut some_blocks lt fits excluded =
    (p, [], refl, omega (arith, length-append p []))
locate size (suc k) o (p ∷ []) cut some_blocks lt fits excluded =
    let len : length (flatten (p ∷ [])) ≡ length p = omega (arith, length-append p []) in
    absurd (grind (arith, len, excluded, cut))
locate size zero o (p ∷ q ∷ ps) cut some_blocks lt fits excluded =
    (p, q ∷ ps, refl, omega (arith, cut.0))
locate size (suc k) o (p ∷ q ∷ ps) cut some_blocks lt fits excluded =
    let len : length (flatten (p ∷ q ∷ ps)) ≡ size + length (flatten (q ∷ ps)) =
      omega (arith, cut.0, length-append p (flatten (q ∷ ps))) in
    let above : suc k * size + o ≡ size + (k * size + o) = omega arith in
    locate size k o (q ∷ ps) cut.1 (omega arith) lt (omega arith) (λ z. excluded (omega arith))

-- The stream from its k-th block on: each block before it is full.
pub Sealed-drop :
    (e : Env) (key : List ℕ) (i k : ℕ) (ps : List (List ℕ)) (bytes : List ℕ)
    → IsBlocks e.block_size ps
    → k < length ps
    → Sealed e key i ps bytes
    → Sealed e key (i + k) (drop k ps) (drop (k * ciphertext_block_size e) bytes)
Sealed-drop e key i k [] bytes cut lt s = absurd (omega arith)
Sealed-drop e key i zero (p ∷ ps) bytes cut lt s =
    let at_0 : i + 0 ≡ i = omega arith in
    let from_0 : 0 * ciphertext_block_size e ≡ 0 = omega arith in rw (at_0, from_0) s
Sealed-drop e key i (suc k) (p ∷ []) bytes cut lt s = absurd (omega arith)
Sealed-drop e key i (suc k) (p ∷ q ∷ ps) bytes cut lt (rest, h, s) =
    let d : ℕ = ciphertext_block_size e in
    let block : List ℕ = h.nonce ++ (h.cipher ++ h.tag) in
    let len : length block ≡ d = omega (
      arith,
      length-append h.nonce (h.cipher ++ h.tag),
      length-append h.cipher h.tag,
      h.nonce_length,
      h.cipher_length,
      h.tag_length,
      cut.0,
    ) in
    let layout : bytes ≡ block ++ rest = h.layout ∙ simp append_assoc in
    let skipped : drop (k * d) rest ≡ drop (suc k * d) bytes =
      ap (drop (k * d)) (sym (drop-append_length d block rest (sym len)))
      ∙ drop-drop (k * d) d (block ++ rest)
      ∙ ap (λ j. drop j (block ++ rest)) {y = suc k * d} (omega arith)
      ∙ ap (drop (suc k * d)) (sym layout) in
    let index : suc i + k ≡ i + suc k = omega arith in
    rw (← index) (rw (← skipped) (Sealed-drop e key (suc i) k (q ∷ ps) rest cut.1 (omega arith) s))

-- The data from a position in the k-th block on.
pub drop-flatten :
    (size k o : ℕ) (blocks : List (List ℕ)) {p : List ℕ} {ps : List (List ℕ)}
    → IsBlocks size blocks
    → drop k blocks ≡ p ∷ ps
    → o ≤ length p
    → drop (k * size + o) (flatten blocks) ≡ drop o p ++ flatten ps
drop-flatten size k o [] cut here le =
    absurd (omega (arith, ap length here, length-drop {A = List ℕ} k []))
drop-flatten size zero o (q ∷ qs) {p} {ps} cut here le =
    let at : 0 * size + o ≡ o = omega arith in
    rw at (ap (λ l. drop o (flatten l)) here ∙ drop-append_left o p (flatten ps) le)
drop-flatten size (suc k) o (q ∷ []) cut here le =
    absurd (omega (arith, ap length here, length-drop {A = List ℕ} k []))
drop-flatten size (suc k) o (q ∷ q' ∷ qs) {p} {ps} cut here le =
    let at : suc k * size + o ≡ size + (k * size + o) = omega arith in
    rw at (
      sym (drop-drop (k * size + o) size (q ++ flatten (q' ∷ qs)))
      ∙ ap (drop (k * size + o)) (drop-append_length size q (flatten (q' ∷ qs)) (sym cut.0))
      ∙ drop-flatten size k o (q' ∷ qs) cut.1 here le)
