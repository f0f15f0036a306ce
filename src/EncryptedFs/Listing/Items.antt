-- ===== src/EncryptedFs/Listing/Items.antt =====
-- What `read_dir` lists when its two caches agree with what they were filled from.
use encryptedfs.Prelude.{
  ℕ, ◌≡◌, refl, sym, ap, ◌∙◌, inl, inr, none, some, List, [], ◌∷◌, arith, if◌then◌else◌, Bool-cases,
  Option-cases, Result, ok, err,
}
use encryptedfs.Prelude.Dict
use encryptedfs.Prelude.Dict.{Dict, Distinct, same, same_refl, same→eq}
use encryptedfs.EncryptedFs.{FsError, invalid_input}
use encryptedfs.Crypto.Text.{dot}
use encryptedfs.EncryptedFs.Names.{this_dir, parent_dir, join, Names}
use encryptedfs.EncryptedFs.Tree.{LsEntry, DirectoryEntry, Fs}
use encryptedfs.EncryptedFs.Listing.{
  decrypt_entry_name, entry_name, entry_meta, create_directory_entry, make_entries,
}

-- A cached name is what decryption gives.
abbrev pub IsNameCache : Names → Dict (List ℕ) → Type 0
IsNameCache names c = (n plain : List ℕ) → Dict.lookup n c ≡ some plain → names.decrypt n ≡ ok plain

-- What is cached for the entries of a directory is what is on disk.
abbrev pub IsMetaCache : ℕ → Dict LsEntry → Dict LsEntry → Type 0
IsMetaCache ino ls c =
    (n : List ℕ) (l m : LsEntry)
    → Dict.lookup n ls ≡ some l
    → Dict.lookup (join ino n) c ≡ some m
    → m ≡ l

-- The name that is shown for an encrypted name.
abbrev pub shown_name : Names → List ℕ → Result FsError (List ℕ)
shown_name names n =
    if same n this_dir
    then ok (dot ∷ [])
    else if same n parent_dir
    then ok (dot ∷ dot ∷ [])
    else elim (names.decrypt n) [ err x ↦ err invalid_input | ok plain ↦ ok plain ]

-- The item for an entry.
abbrev pub item_of : Names → List ℕ → LsEntry → Result FsError DirectoryEntry
item_of names n l = elim (shown_name names n) [
  | err x ↦ err x
  | ok plain ↦ ok (record { ino = l.ino; name = plain; kind = l.kind })
]

unfoldable pub items_of : Names → Dict LsEntry → List (Result FsError DirectoryEntry)
items_of names [] = []
items_of names ((n, l) ∷ ls) = item_of names n l ∷ items_of names ls

abbrev pub with_caches : Dict (List ℕ) → Dict LsEntry → Fs → Fs
with_caches c m s = record s { dir_entries_name_cache = c; dir_entries_meta_cache = m }

module _ (names : Names) where
  decrypt_run :
      (n : List ℕ) (s : Fs)
      → IsNameCache names s.dir_entries_name_cache
      → (c : Dict (List ℕ)) × (decrypt_entry_name names n s ≡ (
        elim (names.decrypt n) [ err x ↦ err invalid_input | ok plain ↦ ok plain ],
        with_caches c s.dir_entries_meta_cache s,
      ))
        × IsNameCache names c
  unfolding decrypt_entry_name
  decrypt_run n s v = elim (Option-cases (Dict.lookup n s.dir_entries_name_cache)) [
    | inr (plain, z) ↦ (s.dir_entries_name_cache, ground (arith, z, v n plain z), v)
    | inl z ↦ go (names.decrypt n) refl z
  ]
    where
      go :
          (r : Result FsError (List ℕ))
          → names.decrypt n ≡ r
          → Dict.lookup n s.dir_entries_name_cache ≡ none
          → (c : Dict (List ℕ)) × (decrypt_entry_name names n s ≡ (
            elim (names.decrypt n) [ err x ↦ err invalid_input | ok plain ↦ ok plain ],
            with_caches c s.dir_entries_meta_cache s,
          ))
            × IsNameCache names c
      go (err x) e z = (s.dir_entries_name_cache, ground (arith, e, z), v)
      go (ok plain) e z = (
        Dict.insert n plain s.dir_entries_name_cache,
        ground (arith, e, z),
        λ j another hit. elim (Bool-cases (same n j)) [
          | inl y ↦
              ap names.decrypt (sym (same→eq n j y))
              ∙ e
              ∙ ground (arith, y, hit, Dict.lookup-insert n j plain s.dir_entries_name_cache)
          | inr y ↦
              v j another
                (ground (arith, y, hit, Dict.lookup-insert n j plain s.dir_entries_name_cache))
        ],
      )

  entry_name_run :
      (n : List ℕ) (s : Fs)
      → IsNameCache names s.dir_entries_name_cache
      → (c : Dict (List ℕ)) × (entry_name names n s
          ≡ (shown_name names n, with_caches c s.dir_entries_meta_cache s))
        × IsNameCache names c
  unfolding entry_name
  entry_name_run n s v = elim (Bool-cases (same n this_dir)) [
    | inl z ↦ (s.dir_entries_name_cache, rw z refl, v)
    | inr z ↦ elim (Bool-cases (same n parent_dir)) [
      | inl y ↦ (s.dir_entries_name_cache, rw z (rw y refl), v)
      | inr y ↦ (let (c, run, w) = decrypt_run n s v in (c, rw z (rw y run), w))
    ]
  ]

  -- Reading what an entry is for keeps the cache in agreement with the folder.
  entry_meta_run :
      (ino : ℕ) (n : List ℕ) (l : LsEntry) (ls : Dict LsEntry) (s : Fs)
      → Dict.lookup n ls ≡ some l
      → IsMetaCache ino ls s.dir_entries_meta_cache
      → (m : Dict LsEntry) × (entry_meta names ino n l s
          ≡ (ok l, with_caches s.dir_entries_name_cache m s))
        × IsMetaCache ino ls m
  unfolding entry_meta
  entry_meta_run ino n l ls s listed v =
      elim (Option-cases (Dict.lookup (join ino n) s.dir_entries_meta_cache)) [
        | inr (m, z) ↦ (s.dir_entries_meta_cache, ground (arith, z, v n l m listed z), v)
        | inl z ↦ (
          Dict.insert (join ino n) l s.dir_entries_meta_cache,
          ground (arith, z),
          λ j k another there hit. elim (Bool-cases (same n j)) [
            | inl y ↦ ground (
              arith,
              y,
              there,
              hit,
              listed,
              ap (λ x. Dict.lookup x ls) (same→eq n j y),
              Dict.lookup-insert (join ino n) (join ino j) l s.dir_entries_meta_cache,
            )
            | inr y ↦ v j k another there (
                ground (
                  arith,
                  y,
                  hit,
                  Dict.lookup-insert (join ino n) (join ino j) l s.dir_entries_meta_cache,
                ))
          ],
        )
      ]

  -- One item, from caches that agree.
  entry_run :
      (ino : ℕ) (n : List ℕ) (l : LsEntry) (ls : Dict LsEntry) (s : Fs)
      → Dict.lookup n ls ≡ some l
      → IsNameCache names s.dir_entries_name_cache
      → IsMetaCache ino ls s.dir_entries_meta_cache
      → (c : Dict (List ℕ)) × (m : Dict LsEntry) × (create_directory_entry names ino (n, l) s
          ≡ (item_of names n l, with_caches c m s))
        × IsNameCache names c
        × IsMetaCache ino ls m
  unfolding create_directory_entry
  entry_run ino n l ls s listed v w =
      let (c, run, v') = entry_name_run n s v in go (shown_name names n) refl c run v'
    where
      go :
          (r : Result FsError (List ℕ))
          → shown_name names n ≡ r
          → (c : Dict (List ℕ))
          → entry_name names n s ≡ (shown_name names n, with_caches c s.dir_entries_meta_cache s)
          → IsNameCache names c
          → (c : Dict (List ℕ)) × (m : Dict LsEntry) × (create_directory_entry names ino (n, l) s
              ≡ (item_of names n l, with_caches c m s))
            × IsNameCache names c
            × IsMetaCache ino ls m
      go (err x) e c run v' =
          let failed : item_of names n l ≡ err x = ground (arith, e) in
          let s' : Fs = with_caches c s.dir_entries_meta_cache s in
          (c, s.dir_entries_meta_cache, rw run (rw e (ap (λ x. (x, s')) (sym failed))), v', w)
      go (ok plain) e c run v' =
          let (m, run', w') =
            entry_meta_run ino n l ls (with_caches c s.dir_entries_meta_cache s) listed w in
          let made : item_of names n l ≡ ok (record { ino = l.ino; name = plain; kind = l.kind }) =
            ground (arith, e) in
          (c, m, rw run (rw e (rw run' (ap (λ x. (x, with_caches c m s)) (sym made)))), v', w')

  -- All items, for the entries of a part of the folder.
  pub items_run :
      (ino : ℕ) (part ls : Dict LsEntry) (s : Fs)
      → Distinct part
      → ((n : List ℕ) (l : LsEntry) → Dict.lookup n part ≡ some l → Dict.lookup n ls ≡ some l)
      → IsNameCache names s.dir_entries_name_cache
      → IsMetaCache ino ls s.dir_entries_meta_cache
      → (c : Dict (List ℕ)) × (m : Dict LsEntry) × (make_entries names
            (create_directory_entry names ino)
            part
            s
          ≡ (items_of names part, with_caches c m s))
        × IsNameCache names c
        × IsMetaCache ino ls m
  unfolding make_entries items_of
  items_run ino [] ls s apart sub v w =
      (s.dir_entries_name_cache, s.dir_entries_meta_cache, refl, v, w)
  items_run ino ((n, l) ∷ part) ls s (new, apart) sub v w =
      let (c, m, run, v', w') =
        entry_run ino n l ls s (sub n l (ground (arith, same_refl n))) v w in
      let (c', m', run', v'', w'') =
        items_run ino part ls (with_caches c m s) apart
          (λ j k there. sub j k (ground (arith, new, there, same→eq n j))) v' w' in
      (c', m', rw run (rw run' refl), v'', w'')
