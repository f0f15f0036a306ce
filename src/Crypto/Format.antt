-- ===== src/Crypto/Format.antt =====
-- The format of an encrypted stream, apart from the code that writes and reads it: for each block a
-- nonce, the ciphertext and the tag, sealed under the block's index.
use encryptedfs.Prelude.{
  ℕ, zero, suc, drop, ◌+◌, ◌*◌, ◌≡◌, refl, subst, some, List, [], ◌∷◌, ◌++◌, append_assoc, arith,
  length, flatten, ap, length-append, ◌≤◌, ◌<◌, ◌⊎◌, inl, inr,
}
use encryptedfs.Crypto.{aad_of, Env}

module _ (e : Env) (key : List ℕ) where
  -- `bytes` is one block that holds `p` at index `i`, followed by `rest`.
  pub record SealedBlock (i : ℕ) (p rest bytes : List ℕ) : Type 0 where
    pub nonce : List ℕ
    pub cipher : List ℕ
    pub tag : List ℕ
    pub layout : bytes ≡ nonce ++ (cipher ++ (tag ++ rest))
    pub nonce_length : length nonce ≡ e.nonce_len
    pub cipher_length : length cipher ≡ length p
    pub tag_length : length tag ≡ e.tag_len
    pub opened : e.open_within key nonce (aad_of i) (cipher ++ tag) ≡ some p

  -- `bytes` is the stream of the blocks, of which the first has index `i`.
  abbrev pub Sealed : ℕ → List (List ℕ) → List ℕ → Type 0
  Sealed i [] bytes = bytes ≡ []
  Sealed i (p ∷ ps) bytes = (rest : List ℕ) × SealedBlock i p rest bytes × Sealed (suc i) ps rest

  pub Sealed-snoc :
      (i : ℕ) (ps : List (List ℕ)) (p bytes block : List ℕ)
      → Sealed i ps bytes
      → SealedBlock (i + length ps) p [] block
      → Sealed i (ps ++ p ∷ []) (bytes ++ block)
  Sealed-snoc i [] p bytes block s b =
      let z : i + 0 ≡ i = omega arith in rw s ([], subst (λ k. SealedBlock k p [] block) z b, refl)
  Sealed-snoc i (q ∷ ps) p bytes block (rest, h, s) b =
      let z : i + suc (length ps) ≡ suc i + length ps = omega arith in
      (
        rest ++ block,
        record {
          nonce = h.nonce;
          cipher = h.cipher;
          tag = h.tag;
          layout = simp (h.layout, append_assoc);
          nonce_length = h.nonce_length;
          cipher_length = h.cipher_length;
          tag_length = h.tag_length;
          opened = h.opened;
        },
        Sealed-snoc (suc i) ps p rest block s (subst (λ k. SealedBlock k p [] block) z b),
      )

  -- A stream of full blocks is as long as its blocks with what each adds.
  pub length-Sealed :
      (i : ℕ) (ps : List (List ℕ)) (bytes : List ℕ)
      → Sealed i ps bytes
      → length bytes ≡ length (flatten ps) + length ps * (e.nonce_len + e.tag_len)
  length-Sealed i [] bytes s = rw s (omega arith)
  length-Sealed i (p ∷ ps) bytes (rest, h, s) = omega (
    arith,
    ap length h.layout,
    length-append h.nonce (h.cipher ++ (h.tag ++ rest)),
    length-append h.cipher (h.tag ++ rest),
    length-append h.tag rest,
    length-append p (flatten ps),
    h.nonce_length,
    h.cipher_length,
    h.tag_length,
    length-Sealed (suc i) ps rest s,
  )

-- The blocks of a stream: full ones, then a shorter one that is not empty, if any.
abbrev pub AllFull : ℕ → List (List ℕ) → Type 0
AllFull size [] = Unit
AllFull size (p ∷ ps) = (length p ≡ size) × AllFull size ps

abbrev pub IsBlocks : ℕ → List (List ℕ) → Type 0
IsBlocks size [] = Unit
IsBlocks size (p ∷ []) = (0 < length p) × (length p ≤ size)
IsBlocks size (p ∷ q ∷ ps) = (length p ≡ size) × IsBlocks size (q ∷ ps)

pub AllFull-snoc :
    (size : ℕ) (ps : List (List ℕ)) (p : List ℕ)
    → AllFull size ps
    → length p ≡ size
    → AllFull size (ps ++ p ∷ [])
AllFull-snoc size [] p h e = (e, tt)
AllFull-snoc size (q ∷ ps) p (h, hs) e = (h, AllFull-snoc size ps p hs e)

pub AllFull-IsBlocks :
    (size : ℕ) (ps : List (List ℕ)) → 0 < size → AllFull size ps → IsBlocks size ps
AllFull-IsBlocks size [] h f = tt
AllFull-IsBlocks size (p ∷ []) h (f, _) = (omega arith, omega arith)
AllFull-IsBlocks size (p ∷ q ∷ ps) h (f, fs) = (f, AllFull-IsBlocks size (q ∷ ps) h fs)

pub IsBlocks-snoc :
    (size : ℕ) (ps : List (List ℕ)) (p : List ℕ)
    → AllFull size ps
    → 0 < length p
    → length p ≤ size
    → IsBlocks size (ps ++ p ∷ [])
IsBlocks-snoc size [] p f l u = (l, u)
IsBlocks-snoc size (q ∷ []) p (f, _) l u = (f, (l, u))
IsBlocks-snoc size (q ∷ r ∷ ps) p (f, fs) l u = (f, IsBlocks-snoc size (r ∷ ps) p fs l u)

-- The first block, and those behind it.
pub IsBlocks-head :
    (size : ℕ) (p : List ℕ) (ps : List (List ℕ))
    → 0 < size
    → IsBlocks size (p ∷ ps)
    → (0 < length p) × (length p ≤ size)
IsBlocks-head size p [] h c = c
IsBlocks-head size p (q ∷ ps) h c = (omega (arith, c.0), omega (arith, c.0))

pub IsBlocks-nonempty :
    (size : ℕ) (ps : List (List ℕ))
    → 0 < size
    → 0 < length ps
    → IsBlocks size ps
    → 0 < length (flatten ps)
IsBlocks-nonempty size [] h more c = absurd (omega arith)
IsBlocks-nonempty size (p ∷ ps) h more c =
    omega (arith, (IsBlocks-head size p ps h c).0, length-append p (flatten ps))

pub IsBlocks-tail :
    (size : ℕ) (p : List ℕ) (ps : List (List ℕ)) → IsBlocks size (p ∷ ps) → IsBlocks size ps
IsBlocks-tail size p [] c = tt
IsBlocks-tail size p (q ∷ ps) c = c.1

pub IsBlocks-drop : (size k : ℕ) (ps : List (List ℕ)) → IsBlocks size ps → IsBlocks size (drop k ps)
IsBlocks-drop size zero ps c = c
IsBlocks-drop size (suc k) [] c = c
IsBlocks-drop size (suc k) (p ∷ ps) c = IsBlocks-drop size k ps (IsBlocks-tail size p ps c)

pub IsBlocks-whole :
    (e : Env) (key : List ℕ) (i : ℕ) (p : List ℕ) (ps : List (List ℕ)) (rest : List ℕ)
    → IsBlocks e.block_size (p ∷ ps)
    → Sealed e key i ps rest
    → (rest ≡ []) ⊎ (length p ≡ e.block_size)
IsBlocks-whole e key i p [] rest c s = inl s
IsBlocks-whole e key i p (q ∷ ps) rest c s = inr c.0
