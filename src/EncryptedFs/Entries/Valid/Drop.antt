-- ===== src/EncryptedFs/Entries/Valid/Drop.antt =====
-- The folders of a directory without an entry that was there.
use encryptedfs.Prelude.{ℕ, ◌≡◌, ap, ◌∙◌, inl, inr, false, some, List, arith, Bool-cases}
use encryptedfs.Prelude.Dict
use encryptedfs.Prelude.Dict.{same, same_refl, same→eq}
use encryptedfs.EncryptedFs.Tree.{LsEntry, HashEntry, Dir}
use encryptedfs.EncryptedFs.Entries.Valid.{drop_entry, IsDir}

module _ (d : Dir) (k : List ℕ) (h : HashEntry) (v : IsDir d)
    (found : Dict.lookup k d.hash ≡ some h) where
  left_in :
      (j : List ℕ) (g : HashEntry)
      → Dict.lookup j (drop_entry d k h).hash ≡ some g
      → (same k j ≡ false) × (Dict.lookup j d.hash ≡ some g)
  left_in j g e = ground (arith, e, Dict.lookup-remove k j d.hash v.hash_distinct)

  other_name :
      (j : List ℕ) (g : HashEntry)
      → same k j ≡ false
      → Dict.lookup j d.hash ≡ some g
      → same h.name g.name ≡ false
  other_name j g apart e = elim (Bool-cases (same h.name g.name)) [
    | inl z ↦ absurd (
        ground (
          arith,
          apart,
          same_refl k,
          ap (same k) (v.single k j h g found e (same→eq h.name g.name z)),
        ))
    | inr z ↦ z
  ]

  without_entry-hashed :
      (n : List ℕ) (l : LsEntry)
      → Dict.lookup n (drop_entry d k h).ls ≡ some l
      → (j : List ℕ) × (g : HashEntry) × (Dict.lookup j (drop_entry d k h).hash ≡ some g)
        × (g.name ≡ n)
  without_entry-hashed n l e =
      let there : (same h.name n ≡ false) × (Dict.lookup n d.ls ≡ some l) =
        ground (arith, e, Dict.lookup-remove h.name n d.ls v.ls_distinct) in
      let (j, g, hit, named) = v.hashed n l there.1 in
      let apart : same k j ≡ false = elim (Bool-cases (same k j)) [
        | inl z ↦
            (let one : h ≡ g =
                ground (arith, found, hit, ap (λ x. Dict.lookup x d.hash) (same→eq k j z)) in
              absurd (
                ground
                  (arith, there.0, same_refl n, ap (λ x. same x n) (ap (λ x. x.name) one ∙ named))))
        | inr z ↦ z
      ] in
      (j, g, ground (arith, apart, hit, Dict.lookup-remove k j d.hash v.hash_distinct), named)

  -- Removing an entry keeps the folders in agreement.
  pub drop_entry-IsDir : IsDir (drop_entry d k h)
  drop_entry-IsDir = record {
    ls_distinct = Dict.remove-Distinct h.name d.ls v.ls_distinct;
    hash_distinct = Dict.remove-Distinct k d.hash v.hash_distinct;
    listed = λ j g e.
        let (apart, there) = left_in j g e in
        ground (
          arith,
          other_name j g apart there,
          v.listed j g there,
          Dict.lookup-remove h.name g.name d.ls v.ls_distinct,
        );
    hashed = without_entry-hashed;
    single = λ i j f g e e' z. v.single i j f g (left_in i f e).1 (left_in j g e').1 z;
    to_parent = λ j g e. v.to_parent j g (left_in j g e).1;
  }
