-- ===== src/Tests/Keys.antt =====
-- The theorems on passwords with the test AEAD: a key is a password and a salt, and a vector is
-- printed as its length and its bytes.
use encryptedfs.Prelude.{
  ℕ, zero, suc, ◌≡◌, refl, List, [], ◌∷◌, ◌++◌, arith, ok, length, raise, pure, Exec, ◌>>=◌,
  take-append_length, continue, ap, ◌∙◌,
}
use encryptedfs.Io.{IoError, unexpected_eof}
use encryptedfs.Io.Contract.{ReadFn, IsReader}
use encryptedfs.Stream
use encryptedfs.Stream.Copy.{read_whole_lem}
use encryptedfs.Crypto.Serialize.{Bincode}
use encryptedfs.Crypto.Serialize.RoundTrip.{IsBincode}
use encryptedfs.EncryptedFs.Keys.{open_data_dir, passwd, Vault}
use encryptedfs.EncryptedFs.Keys.Passwd.{not_made, passwd_lem, IsVault, HasSpace}
use encryptedfs.Tests.Sample.{sample, sample-IsEnv}
use encryptedfs.Tests.Encryption.{room_for}

-- The bytes behind a length.
abbrev rest_of : {S : Type 0} → ReadFn S → List ℕ → Exec IoError S (List ℕ)
rest_of read [] = raise unexpected_eof
rest_of read (zero ∷ xs) = pure []
rest_of read (suc n ∷ xs) = Stream.read read (suc n)

abbrev bincode : Bincode
bincode = record {
  pieces = λ value. (length value ∷ []) ∷ value ∷ [];
  deserialize_from = λ read. Stream.read read 1 >>= rest_of read;
}

rest_of-run :
    {S : Type 0} {Before : S → List ℕ → Type 0} {read : ReadFn S} (value : List ℕ) (s : S)
    → IsReader Before read
    → Before s (value ++ [])
    → (rest_of read (length value ∷ []) s).0 ≡ ok value
rest_of-run [] s reader before = refl
rest_of-run (x ∷ xs) s reader before =
    (read_whole_lem reader (suc (length xs)) s (x ∷ xs ++ []) (omega arith) before).0
    ∙ ap ok (take-append_length (suc (length xs)) (x ∷ xs) [] refl)

bincode-IsBincode : IsBincode bincode
bincode-IsBincode = record {
  reads_back = λ Before read value s reader before.
      let (first, after) =
        read_whole_lem reader 1 s (length value ∷ (value ++ [])) (omega arith) before in
      ap (λ r. (continue r (rest_of read) (Stream.read read 1 s).1).0) first
      ∙ rest_of-run value (Stream.read read 1 s).1 reader after;
}

abbrev vault : Vault
vault = record {
  derive_key = λ password salt. ok (password ++ salt);
  bincode = bincode;
  env = sample;
  quota = 100;
  burst = 1;
}

vault-IsVault : IsVault vault
vault-IsVault = record {
  bincode = bincode-IsBincode;
  env = sample-IsEnv;
  small = omega arith;
  reads_some = omega arith;
}

space : HasSpace vault (7 ∷ 8 ∷ []) (3 ∷ 4 ∷ [])
space = record {
  salt_fits = omega arith;
  key_room = room_for 3 (omega arith);
  key_fits = omega arith;
}

passwd_lem_example :
    let (r, d) = open_data_dir vault (1 ∷ []) (7 ∷ 8 ∷ []) (3 ∷ 4 ∷ []) 0 not_made in
    let (r', d') = passwd vault (1 ∷ []) (2 ∷ []) 1 d in
    (r ≡ ok (3 ∷ 4 ∷ []))
    × (r' ≡ ok tt)
    × (open_data_dir vault (2 ∷ []) (9 ∷ []) (9 ∷ []) 2 d' ≡ (ok (3 ∷ 4 ∷ []), d'))
passwd_lem_example =
    passwd_lem vault (1 ∷ []) (2 ∷ []) (7 ∷ 8 ∷ []) (3 ∷ 4 ∷ []) (1 ∷ 7 ∷ 8 ∷ []) (2 ∷ 7 ∷ 8 ∷ [])
      (9 ∷ []) (9 ∷ []) 0 1 2 vault-IsVault space refl refl
