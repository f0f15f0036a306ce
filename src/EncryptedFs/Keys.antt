-- ===== src/EncryptedFs/Keys.antt =====
-- src/encryptedfs.rs: the data directory, the key that it keeps encrypted, and the change of the
-- password. What is printed goes through the writer and the reader of src/crypto.
pub mod Passwd
use encryptedfs.Io.{IoError}
use encryptedfs.Io.File
use encryptedfs.Io.File.{File}
use encryptedfs.Crypto.{Env}
use encryptedfs.Crypto.Read
use encryptedfs.Crypto.Write
use encryptedfs.Crypto.Write.{RingCryptoWrite}
use encryptedfs.Crypto.Serialize.{Bincode, serialize_into, serialize_encrypt_into, drawn_from}
use encryptedfs.Prelude.{
  continue, pure, ℕ, Bool, true, false, not, ◌&&◌, ◌||◌, Option, none, some, List, [], ◌∷◌, ◌++◌,
  ltb, ◌==◌, if◌then◌else◌, length, Exec, lift, ◌>>=◌, ◌>>◌, modify, Result, ok, err,
}
use encryptedfs.Prelude.Dict.{same}
use encryptedfs.EncryptedFs.{
  FsError, io, invalid_password, invalid_data_dir_structure, serialize_error, crypto, panicked,
  diverged,
}

-- The key that `argon2` derives from a password and a salt, what `bincode` does with a stream, the
-- AEAD, and what a file of the host may take and gives in one read.
pub record Vault : Type 1 where
  pub derive_key : List ℕ → List ℕ → Result FsError (List ℕ)
  pub bincode : Bincode
  pub env : Env
  pub quota : ℕ
  pub burst : ℕ

-- An error as the one that `?` or `map_err` makes of it; a panic is none.
abbrev pub as_error : {A : Type 0} → FsError → Result IoError A → Result FsError A
as_error x (ok a) = ok a
as_error x (err IoError.panicked) = err panicked
as_error x (err IoError.diverged) = err diverged
as_error x (err e) = err x

abbrev pub failing_as : {S A : Type 0} → FsError → Exec IoError S A → Exec FsError S A
failing_as x m s = let (r, s') = m s in (as_error x r, s')

-- The bytes of the file that a writer was given, up to where it came.
abbrev pub bytes_so_far : Result FsError File → RingCryptoWrite → List ℕ
bytes_so_far (ok f) w = f.content
bytes_so_far (err x) w = elim w.out [ none ↦ [] | some f ↦ f.content ]

-- What stands at the path of the data directory.
pub data Place : Type 0 where
  absent plain_file : Place
  folder : List (List ℕ) → Place

-- The data directory, and the two files in its folder `security`.
pub record DataDir : Type 0 where
  pub place : Place
  pub key_salt : Option (List ℕ)
  pub key_enc : Option (List ℕ)

-- `inodes`, `contents` and `security`.
abbrev pub inodes_dir : List ℕ
inodes_dir = 105 ∷ 110 ∷ 111 ∷ 100 ∷ 101 ∷ 115 ∷ []

abbrev pub contents_dir : List ℕ
contents_dir = 99 ∷ 111 ∷ 110 ∷ 116 ∷ 101 ∷ 110 ∷ 116 ∷ 115 ∷ []

abbrev pub security_dir : List ℕ
security_dir = 115 ∷ 101 ∷ 99 ∷ 117 ∷ 114 ∷ 105 ∷ 116 ∷ 121 ∷ []

abbrev pub dirs : List (List ℕ)
dirs = inodes_dir ∷ contents_dir ∷ security_dir ∷ []

-- The order of texts, and `sort_unstable` by it.
unfoldable pub text_le : List ℕ → List ℕ → Bool
text_le [] ys = true
text_le (x ∷ xs) [] = false
text_le (x ∷ xs) (y ∷ ys) = if x == y then text_le xs ys else ltb x y

unfoldable pub insert_text : List ℕ → List (List ℕ) → List (List ℕ)
insert_text t [] = t ∷ []
insert_text t (u ∷ us) = if text_le t u then t ∷ u ∷ us else u ∷ insert_text t us

unfoldable pub sort_texts : List (List ℕ) → List (List ℕ)
sort_texts [] = []
sort_texts (t ∷ ts) = insert_text t (sort_texts ts)

unfoldable pub same_texts : List (List ℕ) → List (List ℕ) → Bool
same_texts [] [] = true
same_texts [] (u ∷ us) = false
same_texts (t ∷ ts) [] = false
same_texts (t ∷ ts) (u ∷ us) = same t u && same_texts ts us

unfoldable pub has_text : List ℕ → List (List ℕ) → Bool
has_text t [] = false
has_text t (u ∷ us) = same u t || has_text t us

abbrev pub is_there : Option (List ℕ) → Bool
is_there none = false
is_there (some bytes) = true

-- The tests of `check_structure` on a folder.
unfoldable pub check_folder : List (List ℕ) → Bool → Exec FsError DataDir (Unit {0})
check_folder names ignore_empty d =
    if (length names == 0) && ignore_empty
    then (ok tt, d)
    else if not (length names == 3)
    then (err invalid_data_dir_structure, d)
    else if not (same_texts (sort_texts names) (sort_texts dirs))
        || not (is_there d.key_enc)
        || not (is_there d.key_salt)
    then (err invalid_data_dir_structure, d)
    else (ok tt, d)

unfoldable pub check_structure : Bool → Exec FsError DataDir (Unit {0})
check_structure ignore_empty d = elim d.place [
  | absent ↦ (err invalid_data_dir_structure, d)
  | plain_file ↦ (err invalid_data_dir_structure, d)
  | folder names ↦ check_folder names ignore_empty d
]

-- The loop that makes the folders that are not there.
unfoldable pub add_dirs : List (List ℕ) → List (List ℕ) → List (List ℕ)
add_dirs [] names = names
add_dirs (t ∷ ts) names = add_dirs ts (if has_text t names then names else names ++ (t ∷ []))

abbrev pub names_of : Place → List (List ℕ)
names_of absent = []
names_of plain_file = []
names_of (folder names) = names

unfoldable pub ensure_structure_created : Exec FsError DataDir (Unit {0})
ensure_structure_created d =
    let make : Exec FsError DataDir (Unit {0}) =
      λ d. (ok tt, record d { place = folder (add_dirs dirs (names_of d.place)) }) in
    elim d.place [
      | absent ↦ make d
      | plain_file ↦ (check_structure true >> make) d
      | folder names ↦ (check_structure true >> make) d
    ]

module _ (vault : Vault) where
  -- A file of the host that is opened, with these bytes.
  abbrev pub host_file : List ℕ → File
  host_file bytes = File.open_file bytes vault.quota vault.burst

  -- A salt, printed as it is; the file is left as far as it was written.
  unfoldable pub write_salt : List ℕ → Exec FsError DataDir (List ℕ)
  write_salt salt d =
      let written = serialize_into File.write_all (vault.bincode.pieces salt) (host_file []) in
      let d' : DataDir = record d { key_salt = some written.1.content } in
      continue (as_error serialize_error written.0) (λ _. pure salt) d'

  unfoldable pub parse_salt : List ℕ → Result IoError (List ℕ)
  parse_salt bytes = (vault.bincode.deserialize_from File.read (host_file bytes)).0

  -- The salt, read or drawn and written.
  unfoldable pub read_or_create_salt : List ℕ → Exec FsError DataDir (List ℕ)
  read_or_create_salt drawn d = elim d.key_salt [
    | some bytes ↦ (as_error invalid_password (parse_salt bytes), d)
    | none ↦ if has_text security_dir (names_of d.place) then write_salt drawn d else (err io, d)
  ]

  -- The key behind a reader with the derived key.
  unfoldable pub decrypt_key : List ℕ → List ℕ → Result FsError (List ℕ)
  decrypt_key derived bytes =
      let reader = Read.new vault.env (host_file bytes) derived in
      as_error invalid_password (vault.bincode.deserialize_from (Read.read vault.env) reader).0

  abbrev pub encrypt_key : Env → List ℕ → Exec FsError RingCryptoWrite File
  encrypt_key e key = do
    failing_as serialize_error (serialize_into (Write.write_all e) (vault.bincode.pieces key))
    failing_as io (Write.finish e)

  -- The file is left as far as it was written.
  abbrev pub keep_written :
      List ℕ → Result FsError File → RingCryptoWrite → Exec FsError DataDir (List ℕ)
  keep_written key r w d =
      let d' : DataDir = record d { key_enc = some (bytes_so_far r w) } in
      continue r (λ _. pure key) d'

  -- The nonces are those drawn from the `i`-th on.
  unfoldable pub write_key : ℕ → List ℕ → List ℕ → Exec FsError DataDir (List ℕ)
  write_key i derived key =
      let e : Env = drawn_from i vault.env in
      let (r, w) = encrypt_key e key (Write.new e (host_file []) derived) in keep_written key r w

  -- The key, read or drawn and written.
  unfoldable pub read_or_create_with : List ℕ → ℕ → List ℕ → Exec FsError DataDir (List ℕ)
  read_or_create_with drawn i derived d = elim d.key_enc [
    | some bytes ↦ (decrypt_key derived bytes, d)
    | none ↦
        if has_text security_dir (names_of d.place)
        then write_key i derived drawn d
        else (err io, d)
  ]

  unfoldable pub read_or_create_key : List ℕ → List ℕ → List ℕ → ℕ → Exec FsError DataDir (List ℕ)
  read_or_create_key password salt_draw key_draw i = do
    salt ← read_or_create_salt salt_draw
    derived ← lift (vault.derive_key password salt)
    read_or_create_with key_draw i derived

  -- What `EncryptedFs::new` does first.
  unfoldable pub open_data_dir : List ℕ → List ℕ → List ℕ → ℕ → Exec FsError DataDir (List ℕ)
  open_data_dir password salt_draw key_draw i = do
    ensure_structure_created
    read_or_create_key password salt_draw key_draw i

  abbrev pub read_salt : Exec FsError DataDir (List ℕ)
  read_salt d = elim d.key_salt [
    | none ↦ (err io, d)
    | some bytes ↦ (as_error serialize_error (parse_salt bytes), d)
  ]

  abbrev pub read_key : List ℕ → Exec FsError DataDir (List ℕ)
  read_key derived d = elim d.key_enc [
    | none ↦ (err io, d)
    | some bytes ↦ (decrypt_key derived bytes, d)
  ]

  -- The new file takes the place of the old one if all went well.
  abbrev pub commit_key : Result IoError File → Exec FsError DataDir (Unit {0})
  commit_key (err x) d = (as_error crypto (err x), d)
  commit_key (ok f) d = (ok tt, record d { key_enc = some f.content })

  -- `atomic_serialize_encrypt_into`.
  unfoldable pub replace_key : ℕ → List ℕ → List ℕ → Exec FsError DataDir (Unit {0})
  replace_key i derived key =
      commit_key
        (serialize_encrypt_into (drawn_from i vault.env) vault.bincode key derived (host_file []))

  unfoldable pub passwd : List ℕ → List ℕ → ℕ → Exec FsError DataDir (Unit {0})
  passwd old_password new_password i = do
    check_structure false
    salt ← read_salt
    initial_key ← lift (vault.derive_key old_password salt)
    key ← read_key initial_key
    new_key ← lift (vault.derive_key new_password salt)
    replace_key i new_key key
