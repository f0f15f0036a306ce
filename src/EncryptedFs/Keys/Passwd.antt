-- ===== src/EncryptedFs/Keys/Passwd.antt =====
-- A change of the password keeps the key.
use encryptedfs.Prelude.{
  ℕ, ◌^◌, ◌≤◌, ◌<◌, ◌≡◌, refl, ap, ◌∙◌, none, some, List, [], length, flatten, ok, continue, pure,
}
use encryptedfs.Io.File
use encryptedfs.Io.File.{File}
use encryptedfs.Io.Kept.{FileAhead, file_reads, file_writes}
use encryptedfs.Crypto.{Env, IsEnv}
use encryptedfs.Crypto.Write
use encryptedfs.Crypto.Write.Holds.{HasRoom}
use encryptedfs.Crypto.Write.Finish.{Stores}
use encryptedfs.Crypto.Serialize.{serialize_into, drawn_from}
use encryptedfs.Crypto.Serialize.RoundTrip.{
  IsBincode, serialized, serialize_into_lem, serialize_encrypt_into_lem, deserialize_from-Stores,
  drawn_from-IsEnv, drawn_from-Stores,
}
use encryptedfs.EncryptedFs.{serialize_error, io}
use encryptedfs.EncryptedFs.Keys.{
  dirs, text_le, insert_text, sort_texts, same_texts, has_text, check_folder, check_structure,
  add_dirs, ensure_structure_created, read_or_create_salt, read_or_create_with, read_or_create_key,
  open_data_dir, passwd, Vault, DataDir, absent, folder, write_salt, parse_salt, decrypt_key,
  write_key, replace_key, as_error, failing_as, encrypt_key, keep_written, commit_key,
}

-- What `bincode` and `ring` document, and a host whose files give some bytes in each read.
pub record IsVault (vault : Vault) : Type 1 where
  pub bincode : IsBincode vault.bincode
  pub env : IsEnv vault.env
  pub small : vault.quota < 2 ^ 63
  pub reads_some : 0 < vault.burst

-- The salt and the key fit into their files.
pub record HasSpace (vault : Vault) (salt key : List ℕ) : Type 0 where
  pub salt_fits : length (flatten (vault.bincode.pieces salt)) ≤ vault.quota
  pub key_room : HasRoom vault.env vault.quota (length (flatten (vault.bincode.pieces key)))
  pub key_fits : length (flatten (vault.bincode.pieces key)) < 2 ^ 63

-- What there is before the first start.
abbrev pub not_made : DataDir
not_made = record { place = absent; key_salt = none; key_enc = none }

module _ (vault : Vault) (laws : IsVault vault) (salt key : List ℕ)
    (fits : HasSpace vault salt key) where
  abbrev bytes_of : List ℕ → List ℕ
  bytes_of value = flatten (vault.bincode.pieces value)

  -- A data directory with the salt, and with these bytes as the encrypted key.
  abbrev kept : File → DataDir
  kept f = record { place = folder dirs; key_salt = some (bytes_of salt); key_enc = some f.content }

  parse_salt_run : parse_salt vault (bytes_of salt) ≡ ok salt
  unfolding parse_salt File.open_file
  parse_salt_run =
      laws.bincode.reads_back FileAhead File.read salt _ file_reads
        (record { burst = laws.reads_some; split = refl })

  decrypt_key_run :
      {f : File} (derived : List ℕ)
      → Stores vault.env derived (bytes_of key) f
      → decrypt_key vault derived f.content ≡ ok key
  unfolding decrypt_key
  decrypt_key_run derived stores = ap (as_error _) (
      deserialize_from-Stores vault.env vault.bincode key derived vault.quota vault.burst laws.env
        laws.small laws.bincode laws.reads_some fits.key_fits stores)

  write_salt_run :
      (d : DataDir)
      → write_salt vault salt d ≡ (ok salt, record d { key_salt = some (bytes_of salt) })
  unfolding write_salt File.open_file
  write_salt_run d =
      let f : File = record {
        content = [];
        cursor = 0;
        quota = vault.quota;
        burst = vault.burst;
      } in
      let (done, wr) =
        serialize_into_lem (file_writes vault.quota) (vault.bincode.pieces salt) f []
          (record { whole = refl; at_end = refl; same_quota = refl }) fits.salt_fits in
      λ i.
        (continue (as_error serialize_error (done i)) (λ _. pure salt)
          (record d { key_salt = some (wr.whole i) }))

  room_for_key : (i : ℕ) → HasRoom (drawn_from i vault.env) vault.quota (length (bytes_of key))
  room_for_key i = record { blocks = fits.key_room.blocks }

  write_key_run :
      (i : ℕ) (derived : List ℕ) (d : DataDir)
      → (f : File) × (write_key vault i derived key d
          ≡ (ok key, record d { key_enc = some f.content }))
        × Stores vault.env derived (bytes_of key) f
  unfolding write_key
  write_key_run i derived d =
      let e : Env = drawn_from i vault.env in
      let w0 = Write.new e (File.open_file [] vault.quota vault.burst) derived in
      let w = (serialize_into (Write.write_all e) (vault.bincode.pieces key) w0).1 in
      let (done, (f, ended, stores)) =
        serialized e vault.bincode key derived vault.quota vault.burst (drawn_from-IsEnv i laws.env)
          laws.small (room_for_key i) in
      let encrypted : (encrypt_key vault e key w0).0 ≡ ok f =
        ap (λ r. (continue (as_error serialize_error r) (λ _. failing_as io (Write.finish e)) w).0)
          done
        ∙ ap (as_error io) ended in
      (
        f,
        ap (λ r. keep_written vault key r (encrypt_key vault e key w0).1 d) encrypted,
        drawn_from-Stores vault.env i stores,
      )

  replace_key_run :
      (i : ℕ) (derived : List ℕ) (d : DataDir)
      → (f : File) × (replace_key vault i derived key d
          ≡ (ok tt, record d { key_enc = some f.content }))
        × Stores vault.env derived (bytes_of key) f
  unfolding replace_key
  replace_key_run i derived d =
      let (f, done, stores) =
        serialize_encrypt_into_lem (drawn_from i vault.env) vault.bincode key derived vault.quota
          vault.burst (drawn_from-IsEnv i laws.env) laws.small (room_for_key i) in
      (f, ap (λ r. commit_key vault r d) done, drawn_from-Stores vault.env i stores)

  module _ (password derived : List ℕ) (derives : vault.derive_key password salt ≡ ok derived) where
    first_run :
        (i : ℕ)
        → (f : File) × (open_data_dir vault password salt key i not_made ≡ (ok key, kept f))
          × Stores vault.env derived (bytes_of key) f
    unfolding open_data_dir ensure_structure_created add_dirs has_text read_or_create_key
        read_or_create_salt read_or_create_with
    first_run i =
        let with_salt : DataDir = record {
          place = folder dirs;
          key_salt = some (bytes_of salt);
          key_enc = none;
        } in
        let (f, run, stores) = write_key_run i derived with_salt in
        (
          f,
          rw (write_salt_run (record not_made { place = folder dirs })) (rw derives (rw run refl)),
          stores,
        )

    again_run :
        (salt_draw key_draw : List ℕ) (j : ℕ) {f : File}
        → Stores vault.env derived (bytes_of key) f
        → open_data_dir vault password salt_draw key_draw j (kept f) ≡ (ok key, kept f)
    unfolding open_data_dir ensure_structure_created add_dirs has_text read_or_create_key
        read_or_create_salt read_or_create_with check_structure check_folder sort_texts insert_text
        text_le same_texts
    again_run salt_draw key_draw j stores =
        rw parse_salt_run (rw derives (rw (decrypt_key_run derived stores) refl))

    passwd_run :
        (new_password derived' : List ℕ) (j : ℕ) {f : File}
        → vault.derive_key new_password salt ≡ ok derived'
        → Stores vault.env derived (bytes_of key) f
        → (f' : File) × (passwd vault password new_password j (kept f) ≡ (ok tt, kept f'))
          × Stores vault.env derived' (bytes_of key) f'
    unfolding passwd check_structure check_folder sort_texts insert_text text_le same_texts
    passwd_run new_password derived' j {f} derives' stores =
        let (f', run, stores') = replace_key_run j derived' (kept f) in
        (
          f',
          rw parse_salt_run
              (rw derives (rw (decrypt_key_run derived stores) (rw derives' (rw run refl)))),
          stores',
        )

-- With what `bincode` and `ring` document, files that have space for the salt and the key, and
-- passwords that give keys: the first start makes the data directory with the drawn key, which it
-- writes encrypted. A change of the password then succeeds, and every later start with the new
-- password gives the same key, whatever it draws, and changes nothing.
pub passwd_lem :
    (vault : Vault) (password new_password salt key derived derived' salt_draw key_draw : List ℕ)
    (i j k : ℕ)
    → IsVault vault
    → HasSpace vault salt key
    → vault.derive_key password salt ≡ ok derived
    → vault.derive_key new_password salt ≡ ok derived'
    → let (r, d) = open_data_dir vault password salt key i not_made in
      let (r', d') = passwd vault password new_password j d in
      (r ≡ ok key)
      × (r' ≡ ok tt)
      × (open_data_dir vault new_password salt_draw key_draw k d' ≡ (ok key, d'))
passwd_lem vault password new_password salt key derived derived' salt_draw key_draw i j k laws fits
      derives derives' =
    let (f, first, stores) = first_run vault laws salt key fits password derived derives i in
    let (f', changed, stores') =
      passwd_run vault laws salt key fits password derived derives new_password derived' j derives'
        stores in
    rw first (
      rw changed (
        refl,
        refl,
        again_run vault laws salt key fits new_password derived' derives' salt_draw key_draw k
            stores',
      ))
