-- ===== src/EncryptedFs/Rename/Target.antt =====
-- What stands at the new place of a `rename`.
use encryptedfs.Prelude.{
  ℕ, ◌^◌, ◌≤◌, ◌<◌, ◌≡◌, refl, sym, subst, ◌⊎◌, inl, inr, Option, some, List, arith, ◌==◌,
  Bool-cases, Option-cases, length, err,
}
use encryptedfs.Prelude.Assoc.{Assoc, lookup}
use encryptedfs.Prelude.Dict
use encryptedfs.Prelude.Dict.{Dict, same, same_refl, same→eq}
use encryptedfs.EncryptedFs.{not_empty}
use encryptedfs.EncryptedFs.Attr.{FileType, directory, regular_file}
use encryptedfs.EncryptedFs.Inodes.{Inodes}
use encryptedfs.EncryptedFs.Inodes.Synced.{after_read}
use encryptedfs.EncryptedFs.Names.{Names}
use encryptedfs.EncryptedFs.Tree.{HashEntry, Dir, Content, Fs, dir}
use encryptedfs.EncryptedFs.Entries.Run.{after_look}
use encryptedfs.EncryptedFs.Nodes.Removal.{
  own_entries, find_entry, look-SameDisk, len_run, SameDisk,
}
use encryptedfs.EncryptedFs.Rename.{check_target}
use encryptedfs.EncryptedFs.Rename.Steps.{Replaceable}
use encryptedfs.EncryptedFs.Valid.{Holds, Ordinary, IsFs}

-- A directory with more entries than its own.
abbrev pub Full : Assoc Content → Option HashEntry → Type 0
Full contents o =
    (t : HashEntry) × (e : Dir) × (o ≡ some t)
    × (t.kind ≡ directory)
    × (lookup t.ino contents ≡ some (dir e))
    × (own_entries t.ino < length e.ls)
    × (length e.ls < 2 ^ 64)

Holds-cases :
    (κ : FileType) (o : Option Content)
    → Holds κ o
    → (κ ≡ regular_file) ⊎ ((κ ≡ directory) × ((e : Dir) × (o ≡ some (dir e))))
Holds-cases directory o h = inr (refl, h)
Holds-cases regular_file o h = inl refl

pub Replaceable-or_Full :
    (q : ℕ) (d : Dir) (s : Fs)
    → IsFs s
    → lookup q s.contents ≡ some (dir d)
    → (k : List ℕ) → Ordinary k
    → ((t : HashEntry) (e : Dir)
        → Dict.lookup k d.hash ≡ some t
        → lookup t.ino s.contents ≡ some (dir e)
        → (own_entries t.ino ≤ length e.ls) × (length e.ls < 2 ^ 64))
    → Replaceable s.contents (Dict.lookup k d.hash) ⊎ Full s.contents (Dict.lookup k d.hash)
Replaceable-or_Full q d s v at k o counts = elim (Option-cases (Dict.lookup k d.hash)) [
  | inl z ↦ inl (subst (Replaceable s.contents) (sym z) tt)
  | inr (t, z) ↦
      (let (a, stored, kind) = v.entries q k t (d, at, z, o) in
        let holds : Holds t.kind (lookup t.ino s.contents) =
          subst (λ x. Holds x (lookup t.ino s.contents)) kind (v.kinds t.ino a stored) in
        elim (Holds-cases t.kind (lookup t.ino s.contents) holds) [
          | inl file_kind ↦ inl (subst (Replaceable s.contents) (sym z) (inl file_kind))
          | inr (dir_kind, (e, there)) ↦
              (let (least, most) = counts t e z there in
                elim (Bool-cases (length e.ls == own_entries t.ino)) [
                  | inl y ↦
                      inl
                        (subst (Replaceable s.contents) (sym z) (inr (e, there, ground (arith, y))))
                  | inr y ↦ inr (t, e, z, dir_kind, there, ground (arith, y, least), most)
                ])
        ])
]

-- `check_target` fails there.
pub check_target-Full :
    (names : Names) (now q : ℕ) (new_name : List ℕ) (d : Dir) (s : Fs)
    → IsFs s
    → lookup q s.contents ≡ some (dir d)
    → Ordinary (names.hash new_name)
    → Full s.contents (Dict.lookup (names.hash new_name) d.hash)
    → (i : Inodes) × (check_target names now q new_name s
        ≡ (err not_empty, record s { inodes = i }))
      × SameDisk s (record s { inodes = i })
unfolding check_target
check_target-Full names now q new_name d s v at o (t, e, z, dir_kind, there, more, most) =
    let (a, stored, kind) = v.entries q (names.hash new_name) t (d, at, z, o) in
    let named : a.ino ≡ t.ino = v.named t.ino a stored in
    let find = find_entry names now q new_name d t s v at z a stored in
    (
      after_read t.ino a s.inodes,
      ground (
        arith,
        find,
        named,
        kind,
        dir_kind,
        more,
        len_run names now q new_name d t s v at z t.ino e (after_look t.ino a s) there
            (ground (arith, more)) most,
      ),
      look-SameDisk names now q new_name d t s v at z a stored,
    )
