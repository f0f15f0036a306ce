-- ===== src/EncryptedFs/Valid/Entry.antt =====
-- Changing the entries of one directory.
use encryptedfs.Prelude.{
  ℕ, ◌≡◌, refl, ap, ◌∙◌, subst, ◌⊎◌, inl, inr, false, some, List, arith, ◌==◌, Bool-cases, sym, ◌≢◌,
  none,
}
use encryptedfs.Prelude.Assoc.{Assoc, lookup, insert, lookup-insert}
use encryptedfs.Prelude.Dict
use encryptedfs.Prelude.Dict.{same, same→eq, same_refl}
use encryptedfs.EncryptedFs.Attr.{FileType, FileAttr, directory, regular_file}
use encryptedfs.EncryptedFs.Tree.{HashEntry, Dir, Content, dir}
use encryptedfs.EncryptedFs.Entries.Valid.{
  IsDir, put_entry, drop_entry, put_entry-IsDir, new-HasPlace, parent-HasPlace, HasPlace,
}
use encryptedfs.EncryptedFs.Entries.Valid.Drop.{drop_entry-IsDir}
use encryptedfs.EncryptedFs.Valid.{Holds, Ordinary, HasEntry, IsTree, Unlinked}
use encryptedfs.EncryptedFs.Names.{parent_dir}

Holds-dir : (κ : FileType) (d d' : Dir) → Holds κ (some (dir d)) → Holds κ (some (dir d'))
Holds-dir directory d d' h = (d', refl)
Holds-dir regular_file d d' (bytes, e) = absurd (ground arith)

module _ {storage cache : Assoc FileAttr} {contents : Assoc Content}
    (v : IsTree storage cache contents) (p : ℕ) (d d' : Dir)
    (at : lookup p contents ≡ some (dir d)) where
  abbrev pub changed : Assoc Content
  changed = insert p (dir d') contents

  -- An entry of the changed directories is one of the new directory, or was there.
  entry_in :
      (q : ℕ) (k : List ℕ) (h : HashEntry)
      → HasEntry changed q k h
      → ((p ≡ q) × (Dict.lookup k d'.hash ≡ some h) × Ordinary k)
        ⊎ (((p == q) ≡ false) × HasEntry contents q k h)
  entry_in q k h (e, here, found, o) = elim (Bool-cases (p == q)) [
    | inl z ↦
        (let one : d' ≡ e = ground (arith, z, here, lookup-insert p q (dir d') contents) in
          inl (ground (arith, z), ap (λ x. Dict.lookup k x.hash) one ∙ found, o))
    | inr z ↦ inr (z, (e, ground (arith, z, here, lookup-insert p q (dir d') contents), found, o))
  ]

  pub changed-IsTree :
      IsDir d'
      → ((q : ℕ) (k : List ℕ) (h : HashEntry)
          → HasEntry changed q k h
          → (a : FileAttr) × (lookup h.ino storage ≡ some a) × (a.kind ≡ h.kind))
      → ((q r : ℕ) (k j : List ℕ) (h g : HashEntry)
          → HasEntry changed q k h
          → HasEntry changed r j g
          → h.ino ≡ g.ino
          → (q ≡ r) × (k ≡ j))
      → IsTree storage cache changed
  changed-IsTree ok_dir ok_entries ok_unique = record {
    named = v.named;
    synced = v.synced;
    kinds = λ ino a e. elim (Bool-cases (p == ino)) [
      | inl z ↦
          (let here : lookup ino contents ≡ some (dir d) = ground (arith, z, at) in
            subst (Holds a.kind) (ground (arith, z, lookup-insert p ino (dir d') contents))
              (Holds-dir a.kind d d' (subst (Holds a.kind) here (v.kinds ino a e))))
      | inr z ↦
          subst (Holds a.kind) (ground (arith, z, lookup-insert p ino (dir d') contents))
            (v.kinds ino a e)
    ];
    owned = λ ino c e. elim (Bool-cases (p == ino)) [
      | inl z ↦ v.owned ino (dir d) (ground (arith, z, at))
      | inr z ↦ v.owned ino c (ground (arith, z, e, lookup-insert p ino (dir d') contents))
    ];
    dirs = λ q e here. elim (Bool-cases (p == q)) [
      | inl z ↦
          subst IsDir {x = d'} (ground (arith, z, here, lookup-insert p q (dir d') contents)) ok_dir
      | inr z ↦ v.dirs q e (ground (arith, z, here, lookup-insert p q (dir d') contents))
    ];
    entries = ok_entries;
    unique = ok_unique;
  }

module _ {storage cache : Assoc FileAttr} {contents : Assoc Content}
    (v : IsTree storage cache contents) (p : ℕ) (d : Dir)
    (at : lookup p contents ≡ some (dir d)) where
  -- A new entry for an inode that has none.
  pub linked-IsTree :
      (k : List ℕ) (h : HashEntry) (a : FileAttr)
      → Ordinary k
      → Dict.lookup k d.hash ≡ none
      → Dict.lookup h.name d.ls ≡ none
      → same h.name parent_dir ≡ false
      → lookup h.ino storage ≡ some a
      → a.kind ≡ h.kind
      → Unlinked h.ino contents
      → IsTree storage cache (insert p (dir (put_entry d k h)) contents)
  linked-IsTree k h a o new_hash new_ls plain stored kind unlinked =
      let d' : Dir = put_entry d k h in
      let here : IsDir d = v.dirs p d at in
      let place : HasPlace d k h.name =
        new-HasPlace d k h.name here (plain ∙ sym o.1) new_hash new_ls in
      -- An entry now is the new one, or was there.
      let old_or_new : (q : ℕ) (j : List ℕ) (g : HashEntry)
          → HasEntry (insert p (dir d') contents) q j g
          → ((p ≡ q) × (k ≡ j) × (h ≡ g)) ⊎ HasEntry contents q j g =
        λ q j g e. elim (entry_in v p d d' at q j g e) [
          | inr (z, old) ↦ inr old
          | inl (z, found, oj) ↦ elim (Bool-cases (same k j)) [
            | inl y ↦
                inl (z, same→eq k j y, ground (arith, y, found, Dict.lookup-insert k j h d.hash))
            | inr y ↦ inr (
              d,
              ap (λ x. lookup x contents) (sym z) ∙ at,
              ground (arith, y, found, Dict.lookup-insert k j h d.hash),
              oj,
            )
          ]
        ] in
      changed-IsTree v p d d' at (put_entry-IsDir d k h here place)
        (λ q j g e. elim (old_or_new q j g e) [
          | inl (z, y, x) ↦
              subst (λ g. (b : FileAttr) × (lookup g.ino storage ≡ some b) × (b.kind ≡ g.kind)) x
                (a, stored, kind)
          | inr old ↦ v.entries q j g old
        ])
        (λ q r i j f g e e' eq. elim (old_or_new q i f e) [
          | inl (z, y, x) ↦ elim (old_or_new r j g e') [
            | inl (z', y', x') ↦ (sym z ∙ z', sym y ∙ y')
            | inr old' ↦ absurd (unlinked r j g old' (sym eq ∙ ap (λ x. x.ino) (sym x)))
          ]
          | inr old ↦ elim (old_or_new r j g e') [
            | inl (z', y', x') ↦ absurd (unlinked q i f old (eq ∙ ap (λ x. x.ino) (sym x')))
            | inr old' ↦ v.unique q r i j f g old old' eq
          ]
        ])

  -- A link of the directory to itself or its parent, new or set anew.
  pub own_link-IsTree :
      (k : List ℕ) (h : HashEntry)
      → ¬ Ordinary k
      → HasPlace d k h.name
      → IsTree storage cache (insert p (dir (put_entry d k h)) contents)
  own_link-IsTree k h own place =
      let d' : Dir = put_entry d k h in
      let old : (q : ℕ) (j : List ℕ) (g : HashEntry)
          → HasEntry (insert p (dir d') contents) q j g
          → HasEntry contents q j g =
        λ q j g e. elim (entry_in v p d d' at q j g e) [
          | inr (z, was) ↦ was
          | inl (z, found, oj) ↦ elim (Bool-cases (same k j)) [
            | inl y ↦ absurd (own (subst Ordinary (sym (same→eq k j y)) oj))
            | inr y ↦ (
              d,
              ap (λ x. lookup x contents) (sym z) ∙ at,
              ground (arith, y, found, Dict.lookup-insert k j h d.hash),
              oj,
            )
          ]
        ] in
      changed-IsTree v p d d' at (put_entry-IsDir d k h (v.dirs p d at) place)
        (λ q j g e. v.entries q j g (old q j g e))
        (λ q r i j f g e e'. v.unique q r i j f g (old q i f e) (old r j g e'))

  pub parent_link-IsTree :
      (h : HashEntry)
      → h.name ≡ parent_dir
      → IsTree storage cache (insert p (dir (put_entry d parent_dir h)) contents)
  parent_link-IsTree h named =
      own_link-IsTree parent_dir h (λ o. absurd (ground (arith, o.1)))
        (subst (HasPlace d parent_dir) (sym named) (parent-HasPlace d (v.dirs p d at)))

  module _ (k : List ℕ) (h : HashEntry) (found : Dict.lookup k d.hash ≡ some h) where
    still :
        (q : ℕ) (j : List ℕ) (g : HashEntry)
        → HasEntry (insert p (dir (drop_entry d k h)) contents) q j g
        → HasEntry contents q j g × ((p ≡ q) → k ≢ j)
    still q j g e = elim (entry_in v p d (drop_entry d k h) at q j g e) [
      | inr (z, was) ↦ (was, λ y. absurd (ground (arith, z, y)))
      | inl (z, hit, oj) ↦
          (let apart : (same k j ≡ false) × (Dict.lookup j d.hash ≡ some g) =
              ground (arith, hit, Dict.lookup-remove k j d.hash (v.dirs p d at).hash_distinct) in
            (
              (d, ap (λ x. lookup x contents) (sym z) ∙ at, apart.1, oj),
              λ _ y. absurd (ground (arith, apart.0, same_refl k, ap (same k) y)),
            ))
    ]

    -- Without the entry.
    pub dropped-IsTree : IsTree storage cache (insert p (dir (drop_entry d k h)) contents)
    dropped-IsTree =
        changed-IsTree v p d (drop_entry d k h) at (drop_entry-IsDir d k h (v.dirs p d at) found)
          (λ q j g e. v.entries q j g (still q j g e).0)
          (λ q r i j f g e e'. v.unique q r i j f g (still q i f e).0 (still r j g e').0)

    -- If it was an ordinary one, no entry stands for its inode any more.
    pub dropped-Unlinked : Ordinary k → Unlinked h.ino (insert p (dir (drop_entry d k h)) contents)
    dropped-Unlinked o q j g e same_ino =
        let (was, apart) = still q j g e in
        let (z, y) = v.unique p q k j h g (d, at, found, o) was (sym same_ino) in apart z y
