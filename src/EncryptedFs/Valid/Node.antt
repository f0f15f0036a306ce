-- ===== src/EncryptedFs/Valid/Node.antt =====
-- A new node that no entry stands for yet, and the removal of one that no entry stands for any more.
use encryptedfs.Prelude.{
  ℕ, ◌≡◌, sym, ap, ◌∙◌, subst, inl, inr, false, none, some, List, arith, ◌==◌, Bool-cases,
  Option-cases,
}
use encryptedfs.Prelude.Assoc.{Assoc, lookup, insert, remove, lookup-insert, lookup-remove}
use encryptedfs.Prelude.Dict
use encryptedfs.EncryptedFs.Attr.{FileAttr}
use encryptedfs.EncryptedFs.Tree.{HashEntry, Dir, Content, dir}
use encryptedfs.EncryptedFs.Entries.Valid.{IsDir}
use encryptedfs.EncryptedFs.Valid.{Holds, Ordinary, HasEntry, Unlinked, IsTree}

-- Only what is found in the contents counts.
pub IsTree-ext :
    {storage cache : Assoc FileAttr} (contents contents' : Assoc Content)
    → ((ino : ℕ) → lookup ino contents ≡ lookup ino contents')
    → IsTree storage cache contents
    → IsTree storage cache contents'
IsTree-ext contents contents' eq v =
    let back : (p : ℕ) (k : List ℕ) (h : HashEntry)
        → HasEntry contents' p k h
        → HasEntry contents p k h =
      λ p k h (d, here, found, o). (d, eq p ∙ here, found, o) in
    record {
      named = v.named;
      synced = v.synced;
      kinds = λ ino a e. subst (Holds a.kind) (eq ino) (v.kinds ino a e);
      owned = λ ino c e. v.owned ino c (eq ino ∙ e);
      dirs = λ p d e. v.dirs p d (eq p ∙ e);
      entries = λ p k h e. v.entries p k h (back p k h e);
      unique = λ p q k j h g e e'. v.unique p q k j h g (back p k h e) (back q j g e');
    }

module _ {storage cache : Assoc FileAttr} {contents : Assoc Content}
    (v : IsTree storage cache contents) where
  -- A number that has no inode has no contents.
  pub no_contents : (ino : ℕ) → lookup ino storage ≡ none → lookup ino contents ≡ none
  no_contents ino absent = elim (Option-cases (lookup ino contents)) [
    | inl z ↦ z
    | inr (c, z) ↦ (let (a, e) = v.owned ino c z in absurd (ground (arith, absent, e)))
  ]

  -- No entry stands for a number that has no inode.
  pub no_entry : (ino : ℕ) → lookup ino storage ≡ none → Unlinked ino contents
  no_entry ino absent p k h e same_ino =
      let (a, stored, kind) = v.entries p k h e in
      absurd (ground (arith, absent, ap (λ x. lookup x storage) (sym same_ino) ∙ stored))

  module _ (a : FileAttr) (c : Content) (fresh : lookup a.ino storage ≡ none)
      (holds : Holds a.kind (some c)) (dirs : (d : Dir) → c ≡ dir d → IsDir d)
      (bare : (d : Dir) (k : List ℕ) (h : HashEntry)
        → c ≡ dir d
        → Dict.lookup k d.hash ≡ some h
        → ¬ Ordinary k) where
    old_entry :
        (q : ℕ) (k : List ℕ) (h : HashEntry)
        → HasEntry (insert a.ino c contents) q k h
        → HasEntry contents q k h
    old_entry q k h (d, here, found, o) = elim (Bool-cases (a.ino == q)) [
      | inl z ↦
          absurd (bare d k h (ground (arith, z, here, lookup-insert a.ino q c contents)) found o)
      | inr z ↦ (d, ground (arith, z, here, lookup-insert a.ino q c contents), found, o)
    ]

    pub new_node-IsTree :
        IsTree (insert a.ino a storage) (insert a.ino a cache) (insert a.ino c contents)
    new_node-IsTree = record {
      named = λ ino b e. ground (arith, e, lookup-insert a.ino ino a storage, v.named ino b);
      synced = λ ino b b' e e'. ground (
        arith,
        e,
        e',
        lookup-insert a.ino ino a storage,
        lookup-insert a.ino ino a cache,
        v.synced ino b b',
      );
      kinds = λ ino b e. elim (Bool-cases (a.ino == ino)) [
        | inl z ↦
            (let one : a ≡ b = ground (arith, z, e, lookup-insert a.ino ino a storage) in
              subst (λ x. Holds x.kind (lookup ino (insert a.ino c contents))) one
                (subst (Holds a.kind) (ground (arith, z, lookup-insert a.ino ino c contents))
                  holds))
        | inr z ↦
            subst (Holds b.kind) (ground (arith, z, lookup-insert a.ino ino c contents))
              (v.kinds ino b (ground (arith, z, e, lookup-insert a.ino ino a storage)))
      ];
      owned = λ ino c' e. elim (Bool-cases (a.ino == ino)) [
        | inl z ↦ (a, ground (arith, z, lookup-insert a.ino ino a storage))
        | inr z ↦
            (let (b, stored) =
                v.owned ino c' (ground (arith, z, e, lookup-insert a.ino ino c contents)) in
              (b, ground (arith, z, stored, lookup-insert a.ino ino a storage)))
      ];
      dirs = λ p d e. elim (Bool-cases (a.ino == p)) [
        | inl z ↦ dirs d (ground (arith, z, e, lookup-insert a.ino p c contents))
        | inr z ↦ v.dirs p d (ground (arith, z, e, lookup-insert a.ino p c contents))
      ];
      entries = λ p k h e.
          let (b, stored, kind) = v.entries p k h (old_entry p k h e) in
          (b, ground (arith, fresh, stored, lookup-insert a.ino h.ino a storage), kind);
      unique = λ p q k j h g e e'. v.unique p q k j h g (old_entry p k h e) (old_entry q j g e');
    }

    -- Nothing but the new node is new.
    pub new_node-Unlinked : Unlinked a.ino (insert a.ino c contents)
    new_node-Unlinked p k h e = no_entry a.ino fresh p k h (old_entry p k h e)

  -- The cache may still know the removed node.
  pub removed-IsTree :
      (ino : ℕ) → Unlinked ino contents → IsTree (remove ino storage) cache (remove ino contents)
  removed-IsTree ino unlinked =
      let old : (p : ℕ) (k : List ℕ) (h : HashEntry)
          → HasEntry (remove ino contents) p k h
          → HasEntry contents p k h =
        λ p k h (d, here, found, o).
          (d, ground (arith, here, lookup-remove ino p contents), found, o) in
      record {
        named = λ j a e. v.named j a (ground (arith, e, lookup-remove ino j storage));
        synced = λ j a b e e'. v.synced j a b e (ground (arith, e', lookup-remove ino j storage));
        kinds = λ j a e.
            let (z, here) : ((ino == j) ≡ false) × (lookup j storage ≡ some a) =
              ground (arith, e, lookup-remove ino j storage) in
            subst (Holds a.kind) (ground (arith, z, lookup-remove ino j contents))
              (v.kinds j a here);
        owned = λ j c e.
            let (z, here) : ((ino == j) ≡ false) × (lookup j contents ≡ some c) =
              ground (arith, e, lookup-remove ino j contents) in
            let (a, stored) = v.owned j c here in
            (a, ground (arith, z, stored, lookup-remove ino j storage));
        dirs = λ p d e. v.dirs p d (ground (arith, e, lookup-remove ino p contents));
        entries = λ p k h e.
            let (a, stored, kind) = v.entries p k h (old p k h e) in
            (
              a,
              ground (arith, unlinked p k h (old p k h e), stored, lookup-remove ino h.ino storage),
              kind,
            );
        unique = λ p q k j h g e e'. v.unique p q k j h g (old p k h e) (old q j g e');
      }
