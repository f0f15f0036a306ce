-- ===== src/EncryptedFs/Entries/Valid.antt =====
-- The two folders of a directory agree: an entry that is found by its name's hash is listed under its
-- encrypted name, and the other way round.
pub mod Drop
use encryptedfs.Prelude.{
  ℕ, refl, none, ◌⊎◌, ◌≡◌, sym, ap, ◌∙◌, inl, inr, false, some, List, [], arith, Bool-cases,
}
use encryptedfs.Prelude.Dict
use encryptedfs.Prelude.Dict.{Dict, Distinct, same, same_refl, same→eq}
use encryptedfs.EncryptedFs.Names.{parent_dir}
use encryptedfs.EncryptedFs.Tree.{LsEntry, HashEntry, Dir}

-- What `ls` says of an entry of `hash`.
abbrev pub ls_of : HashEntry → LsEntry
ls_of h = record { ino = h.ino; kind = h.kind }

pub record IsDir (d : Dir) : Type 0 where
  pub ls_distinct : Distinct d.ls
  pub hash_distinct : Distinct d.hash
  pub listed :
      (k : List ℕ) (h : HashEntry)
      → Dict.lookup k d.hash ≡ some h
      → Dict.lookup h.name d.ls ≡ some (ls_of h)
  pub hashed :
      (n : List ℕ) (l : LsEntry)
      → Dict.lookup n d.ls ≡ some l
      → (k : List ℕ) × (h : HashEntry) × (Dict.lookup k d.hash ≡ some h) × (h.name ≡ n)
  pub single :
      (k j : List ℕ) (h g : HashEntry)
      → Dict.lookup k d.hash ≡ some h
      → Dict.lookup j d.hash ≡ some g
      → h.name ≡ g.name
      → k ≡ j
  pub to_parent :
      (k : List ℕ) (h : HashEntry)
      → Dict.lookup k d.hash ≡ some h
      → same h.name parent_dir ≡ same k parent_dir

pub empty-IsDir : IsDir (record { ls = []; hash = [] })
empty-IsDir = record {
  ls_distinct = tt;
  hash_distinct = tt;
  listed = λ k h e. absurd (ground arith);
  hashed = λ n l e. absurd (ground arith);
  single = λ k j h g e. absurd (ground arith);
  to_parent = λ k h e. absurd (ground arith);
}

-- A pair of keys under which a new entry may stand: both are new, or both are those of one entry.
pub record HasPlace (d : Dir) (k n : List ℕ) : Type 0 where
  pub to_parent : same n parent_dir ≡ same k parent_dir
  pub replaced : (h : HashEntry) → Dict.lookup k d.hash ≡ some h → h.name ≡ n
  pub listed_once :
      (j : List ℕ) (h : HashEntry) → Dict.lookup j d.hash ≡ some h → h.name ≡ n → j ≡ k

-- A directory with an entry put in, over one with the same keys.
abbrev pub put_entry : Dir → List ℕ → HashEntry → Dir
put_entry d k h = record { ls = Dict.insert h.name (ls_of h) d.ls; hash = Dict.insert k h d.hash }

-- A directory without an entry.
abbrev pub drop_entry : Dir → List ℕ → HashEntry → Dir
drop_entry d k h = record { ls = Dict.remove h.name d.ls; hash = Dict.remove k d.hash }

module _ (d : Dir) (k : List ℕ) (h : HashEntry) (v : IsDir d) (place : HasPlace d k h.name) where
  with_entry-listed :
      (j : List ℕ) (g : HashEntry)
      → Dict.lookup j (put_entry d k h).hash ≡ some g
      → Dict.lookup g.name (put_entry d k h).ls ≡ some (ls_of g)
  with_entry-listed j g e = elim (Bool-cases (same k j)) [
    | inl z ↦
        (let here : h ≡ g = ground (arith, z, e, Dict.lookup-insert k j h d.hash) in
          ground (arith, here, same_refl h.name, Dict.lookup-insert h.name g.name (ls_of h) d.ls))
    | inr z ↦
        (let there : Dict.lookup j d.hash ≡ some g =
            ground (arith, z, e, Dict.lookup-insert k j h d.hash) in
          let apart : same h.name g.name ≡ false = elim (Bool-cases (same h.name g.name)) [
            | inl y ↦ absurd (
                ground (
                  arith,
                  z,
                  same_refl k,
                  ap (same k) (place.listed_once j g there (sym (same→eq h.name g.name y))),
                ))
            | inr y ↦ y
          ] in
          ground
            (arith, apart, v.listed j g there, Dict.lookup-insert h.name g.name (ls_of h) d.ls))
  ]

  with_entry-hashed :
      (n : List ℕ) (l : LsEntry)
      → Dict.lookup n (put_entry d k h).ls ≡ some l
      → (j : List ℕ) × (g : HashEntry) × (Dict.lookup j (put_entry d k h).hash ≡ some g)
        × (g.name ≡ n)
  with_entry-hashed n l e = elim (Bool-cases (same h.name n)) [
    | inl z ↦
        (k, h, ground (arith, same_refl k, Dict.lookup-insert k k h d.hash), same→eq h.name n z)
    | inr z ↦
        (let there : Dict.lookup n d.ls ≡ some l =
            ground (arith, z, e, Dict.lookup-insert h.name n (ls_of h) d.ls) in
          let (j, g, found, named) = v.hashed n l there in
          let apart : same k j ≡ false = elim (Bool-cases (same k j)) [
            | inl y ↦ absurd (
                ground (
                  arith,
                  z,
                  same_refl n,
                  named,
                  ap (same h.name) named,
                  ap (λ x. same x n)
                      (place.replaced g (ap (λ x. Dict.lookup x d.hash) (same→eq k j y) ∙ found)),
                  ap (λ x. same x n) named,
                ))
            | inr y ↦ y
          ] in
          (j, g, ground (arith, apart, found, Dict.lookup-insert k j h d.hash), named))
  ]

  -- What is found after the insertion is the new entry under its key, or was there before.
  found_in :
      (j : List ℕ) (g : HashEntry)
      → Dict.lookup j (put_entry d k h).hash ≡ some g
      → ((k ≡ j) × (h ≡ g)) ⊎ ((same k j ≡ false) × (Dict.lookup j d.hash ≡ some g))
  found_in j g e = elim (Bool-cases (same k j)) [
    | inl z ↦ inl (same→eq k j z, ground (arith, z, e, Dict.lookup-insert k j h d.hash))
    | inr z ↦ inr (z, ground (arith, z, e, Dict.lookup-insert k j h d.hash))
  ]

  with_entry-single :
      (i j : List ℕ) (f g : HashEntry)
      → Dict.lookup i (put_entry d k h).hash ≡ some f
      → Dict.lookup j (put_entry d k h).hash ≡ some g
      → f.name ≡ g.name
      → i ≡ j
  with_entry-single i j f g e e' same_name = elim (found_in i f e) [
    | inl (z, w) ↦ elim (found_in j g e') [
      | inl (z', w') ↦ sym z ∙ z'
      | inr (z', w') ↦
          sym z ∙ sym (place.listed_once j g w' (sym same_name ∙ ap (λ x. x.name) (sym w)))
    ]
    | inr (z, w) ↦ elim (found_in j g e') [
      | inl (z', w') ↦ place.listed_once i f w (same_name ∙ ap (λ x. x.name) (sym w')) ∙ z'
      | inr (z', w') ↦ v.single i j f g w w' same_name
    ]
  ]

  with_entry-to_parent :
      (j : List ℕ) (g : HashEntry)
      → Dict.lookup j (put_entry d k h).hash ≡ some g
      → same g.name parent_dir ≡ same j parent_dir
  with_entry-to_parent j g e = elim (found_in j g e) [
    | inl (z, w) ↦
        ap (λ x. same x.name parent_dir) (sym w) ∙ place.to_parent ∙ ap (λ x. same x parent_dir) z
    | inr (z, w) ↦ v.to_parent j g w
  ]

  -- Adding an entry that has a place keeps the folders in agreement.
  pub put_entry-IsDir : IsDir (put_entry d k h)
  put_entry-IsDir = record {
    ls_distinct = Dict.insert-Distinct h.name (ls_of h) d.ls v.ls_distinct;
    hash_distinct = Dict.insert-Distinct k h d.hash v.hash_distinct;
    listed = with_entry-listed;
    hashed = with_entry-hashed;
    single = with_entry-single;
    to_parent = with_entry-to_parent;
  }

-- New keys have a place.
pub new-HasPlace :
    (d : Dir) (k n : List ℕ)
    → IsDir d
    → same n parent_dir ≡ same k parent_dir
    → Dict.lookup k d.hash ≡ none
    → Dict.lookup n d.ls ≡ none
    → HasPlace d k n
new-HasPlace d k n v special new_hash new_ls = record {
  to_parent = special;
  replaced = λ h e. absurd (ground (arith, e, new_hash));
  listed_once =
      λ j h e z. absurd (ground (arith, new_ls, v.listed j h e, ap (λ x. Dict.lookup x d.ls) z));
}

-- The link to the parent has a place, whether it is there or not.
pub parent-HasPlace : (d : Dir) → IsDir d → HasPlace d parent_dir parent_dir
parent-HasPlace d v = record {
  to_parent = refl;
  replaced = λ h e. same→eq h.name parent_dir (v.to_parent parent_dir h e);
  listed_once =
      λ j h e z. same→eq j parent_dir (sym (v.to_parent j h e) ∙ ap (λ x. same x parent_dir) z);
}
