-- ===== src/EncryptedFs/Valid/Namespace.antt =====
-- What the names of a file system stand for, as a function of a directory and a name's hash.
use encryptedfs.Prelude.{
  ℕ, ◌≡◌, inl, inr, ◌&&◌, Option, none, some, List, arith, ◌==◌, if◌then◌else◌, Bool-cases,
  Option-cases,
}
use encryptedfs.Prelude.Assoc.{Assoc, lookup, insert, lookup-insert}
use encryptedfs.Prelude.Dict
use encryptedfs.Prelude.Dict.{same}
use encryptedfs.EncryptedFs.Tree.{HashEntry, Dir, Content, file, dir}
use encryptedfs.EncryptedFs.Entries.Valid.{put_entry, drop_entry, IsDir}
use encryptedfs.EncryptedFs.Valid.{Ordinary, HasEntry}

abbrev pub entry_at : Assoc Content → ℕ → List ℕ → Option HashEntry
entry_at contents p k = elim (lookup p contents) [
  | none ↦ none
  | some (file bytes) ↦ none
  | some (dir d) ↦ Dict.lookup k d.hash
]

module _ (contents : Assoc Content) (p : ℕ) (d : Dir) (at : lookup p contents ≡ some (dir d)) where
  pub entry_at-dir : (k : List ℕ) → entry_at contents p k ≡ Dict.lookup k d.hash
  entry_at-dir k = ground (arith, at)

  pub entry_at-put :
      (k : List ℕ) (h : HashEntry) (q : ℕ) (j : List ℕ)
      → entry_at (insert p (dir (put_entry d k h)) contents) q j
        ≡ (if (p == q) && same k j then some h else entry_at contents q j)
  entry_at-put k h q j =
      let e = lookup-insert p q (dir (put_entry d k h)) contents in
      elim (Bool-cases (p == q)) [
        | inl z ↦
            (let here : lookup q contents ≡ some (dir d) = ground (arith, z, at) in
              ground (arith, z, e, here, Dict.lookup-insert k j h d.hash))
        | inr z ↦ ground (arith, z, e)
      ]

  pub entry_at-drop :
      IsDir d
      → (k : List ℕ) (h : HashEntry) (q : ℕ) (j : List ℕ)
      → entry_at (insert p (dir (drop_entry d k h)) contents) q j
        ≡ (if (p == q) && same k j then none else entry_at contents q j)
  entry_at-drop v k h q j =
      let e = lookup-insert p q (dir (drop_entry d k h)) contents in
      elim (Bool-cases (p == q)) [
        | inl z ↦
            (let here : lookup q contents ≡ some (dir d) = ground (arith, z, at) in
              ground (arith, z, e, here, Dict.lookup-remove k j d.hash v.hash_distinct))
        | inr z ↦ ground (arith, z, e)
      ]

-- An entry that is found in the directories is in one.
pub entry_at-HasEntry :
    (contents : Assoc Content) (p : ℕ) (k : List ℕ) (h : HashEntry)
    → Ordinary k
    → entry_at contents p k ≡ some h
    → HasEntry contents p k h
entry_at-HasEntry contents p k h o e = elim (Option-cases (lookup p contents)) [
  | inl z ↦ absurd (ground (arith, z, e))
  | inr (file bytes, z) ↦ absurd (ground (arith, z, e))
  | inr (dir d, z) ↦ (d, z, ground (arith, z, e), o)
]
