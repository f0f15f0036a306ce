-- ===== src/EncryptedFs/Nodes/Next.antt =====
-- The number of a new inode.
use encryptedfs.Prelude.{
  ℕ, ◌<◌, ◌≡◌, inl, inr, false, ◌||◌, some, List, [], ◌∷◌, ◌++◌, arith, leb, Bool-cases,
}
use encryptedfs.EncryptedFs.Tree.{root_inode, exists, Fs}
use encryptedfs.EncryptedFs.Nodes.{generate_next_inode}

-- A number above the root's that no inode has.
abbrev pub IsFree : ℕ → Fs → Type 0
IsFree ino s = (root_inode < ino) × (exists ino s ≡ false)

-- What is drawn is free.
pub generated-IsFree :
    (draws : List ℕ) (s : Fs) (ino : ℕ) → generate_next_inode draws s ≡ some ino → IsFree ino s
unfolding generate_next_inode
generated-IsFree [] s ino e = absurd (ground arith)
generated-IsFree (x ∷ draws) s ino e = elim (Bool-cases (leb x root_inode || exists x s)) [
  | inl z ↦ generated-IsFree draws s ino (ground (arith, z, e))
  | inr z ↦ ground (arith, z, e)
]

-- When a free number is among those that the generator gives, `generate_next_inode` ends, and with a
-- free number.
pub generate_next_inode_lem :
    (before after : List ℕ) (x : ℕ) (s : Fs)
    → IsFree x s
    → (ino : ℕ) × (generate_next_inode (before ++ x ∷ after) s ≡ some ino) × IsFree ino s
unfolding generate_next_inode
generate_next_inode_lem [] after x s free = (x, ground (arith, free), free)
generate_next_inode_lem (y ∷ before) after x s free =
    let (ino, e, rest) = generate_next_inode_lem before after x s free in
    elim (Bool-cases (leb y root_inode || exists y s)) [
      | inl z ↦ (ino, ground (arith, z, e), rest)
      | inr z ↦ (y, ground (arith, z), ground (arith, z))
    ]
