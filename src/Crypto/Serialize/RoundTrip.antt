-- ===== src/Crypto/Serialize/RoundTrip.antt =====
-- What is serialized through a writer is there to be read.
use encryptedfs.Prelude.{
  ℕ, suc, ◌+◌, ◌^◌, ◌<◌, ◌≡◌, sym, subst, List, [], ◌∷◌, ◌++◌, append-nil, append_assoc, length,
  flatten, ok, refl, ap, ◌∙◌, continue,
}
use encryptedfs.Io.File
use encryptedfs.Io.File.{File}
use encryptedfs.Io.Contract.{ReadFn, WriteAllFn, IsReader, IsWriter}
use encryptedfs.Crypto.Format.{Sealed}
use encryptedfs.Crypto.{Env, IsEnv}
use encryptedfs.Crypto.Write
use encryptedfs.Crypto.Write.Holds.{HasRoom, new-Holds}
use encryptedfs.Crypto.Write.Finish.{Stores, finish_lem, ring-IsWriter}
use encryptedfs.Crypto.Read
use encryptedfs.Crypto.Read.Ahead.{Ahead, read_reads}
use encryptedfs.Crypto.RoundTrip.{reader_at_start}
use encryptedfs.Crypto.Serialize.{Bincode, serialize_into, serialize_encrypt_into, drawn_from}

-- `bincode` documents that a value is read back from what was written, through any reader.
pub record IsBincode (b : Bincode) : Type 1 where
  pub reads_back :
      {S : Type 0} (Before : S → List ℕ → Type 0) (read : ReadFn S) (value : List ℕ) (s : S)
      → IsReader Before read
      → Before s (flatten (b.pieces value))
      → (b.deserialize_from read s).0 ≡ ok value

pub drawn_from-IsEnv : {e : Env} (i : ℕ) → IsEnv e → IsEnv (drawn_from i e)
drawn_from-IsEnv i env = record {
  block_pos = env.block_pos;
  small = env.small;
  length-random = λ n. env.length-random (i + n);
  seals = env.seals;
  length-open_within = env.length-open_within;
}

module _ {W : Type 0} {Written : W → List ℕ → Type 0} {Fits : List ℕ → Type 0}
    {write_all : WriteAllFn W} (writer : IsWriter Written Fits write_all) where
  pub serialize_into_lem :
      (ps : List (List ℕ)) (w : W) (before : List ℕ)
      → Written w before
      → Fits (before ++ flatten ps)
      → let (r, w') = serialize_into write_all ps w in
        (r ≡ ok tt) × Written w' (before ++ flatten ps)
  unfolding serialize_into
  serialize_into_lem [] w before h fits = (refl, subst (Written w) (sym (append-nil before)) h)
  serialize_into_lem (p ∷ ps) w before h fits =
      let same : before ++ (p ++ flatten ps) ≡ (before ++ p) ++ flatten ps =
        sym (append_assoc before p (flatten ps)) in
      let fits' : Fits ((before ++ p) ++ flatten ps) = subst Fits same fits in
      let (done, h') =
        writer.writes p w before h (writer.prefix (before ++ p) (flatten ps) fits') in
      let (all, h2) = serialize_into_lem ps (write_all p w).1 (before ++ p) h' fits' in
      (rw done all, rw done (subst (Written _) (sym same) h2))

module _ (e : Env) (bincode : Bincode) (value key : List ℕ) (quota burst : ℕ) (env : IsEnv e)
    (small : quota < 2 ^ 63) where
  abbrev pub printed : List ℕ
  printed = flatten (bincode.pieces value)

  -- The writer once the value is in, and the file that `finish` then gives.
  pub serialized :
      HasRoom e quota (length printed)
      → let (r, w) =
          serialize_into
            (Write.write_all e)
            (bincode.pieces value)
            (Write.new e (File.open_file [] quota burst) key) in
        (r ≡ ok tt) × ((f : File) × ((Write.finish e w).0 ≡ ok f) × Stores e key printed f)
  unfolding File.open_file
  serialized room =
      let (done, h) =
        serialize_into_lem (ring-IsWriter e quota key env small) (bincode.pieces value)
          (Write.new e (record { content = []; cursor = 0; quota = quota; burst = burst }) key) []
          (new-Holds e quota key (record { content = []; cursor = 0; quota = quota; burst = burst })
            env refl refl refl)
          room in
      let (f, ended, _, stores) = finish_lem e quota key env h room in (done, (f, ended, stores))

  pub serialize_encrypt_into_lem :
      HasRoom e quota (length printed)
      → (f : File) × (serialize_encrypt_into e bincode value key (File.open_file [] quota burst)
          ≡ ok f)
        × Stores e key printed f
  unfolding serialize_encrypt_into
  serialize_encrypt_into_lem room =
      let w =
        (serialize_into (Write.write_all e) (bincode.pieces value)
          (Write.new e (File.open_file [] quota burst) key)).1 in
      let (done, (f, ended, stores)) = serialized room in
      (f, ap (λ r. (continue r (λ _. Write.finish e) w).0) done ∙ ended, stores)

  -- A reader with the same key, over a file that stores the value.
  pub deserialize_from-Stores :
      {f : File}
      → IsBincode bincode
      → 0 < burst
      → length printed < 2 ^ 63
      → Stores e key printed f
      → (bincode.deserialize_from
          (Read.read e)
          (Read.new e (File.open_file f.content quota burst) key)).0
        ≡ ok value
  unfolding File.open_file
  deserialize_from-Stores {f} laws reads_some fits stores =
      let open_f : File = record {
        content = f.content;
        cursor = 0;
        quota = quota;
        burst = burst;
      } in
      let opened : Stores e key printed open_f = record {
        blocks = stores.blocks;
        sealed = stores.sealed;
        cut = stores.cut;
        whole = stores.whole;
      } in
      laws.reads_back (Ahead e key) (Read.read e) value (Read.new e open_f key)
        (read_reads e key env) (reader_at_start e key env reads_some opened fits)

-- What is stored does not depend on the random numbers to come.
drawn_from-Sealed :
    (e : Env) (n : ℕ) (key : List ℕ) (i : ℕ) (ps : List (List ℕ)) (bytes : List ℕ)
    → Sealed (drawn_from n e) key i ps bytes
    → Sealed e key i ps bytes
drawn_from-Sealed e n key i [] bytes s = s
drawn_from-Sealed e n key i (p ∷ ps) bytes (rest, h, s) = (
  rest,
  record {
    nonce = h.nonce;
    cipher = h.cipher;
    tag = h.tag;
    layout = h.layout;
    nonce_length = h.nonce_length;
    cipher_length = h.cipher_length;
    tag_length = h.tag_length;
    opened = h.opened;
  },
  drawn_from-Sealed e n key (suc i) ps rest s,
)

pub drawn_from-Stores :
    (e : Env) (n : ℕ) {key written : List ℕ} {f : File}
    → Stores (drawn_from n e) key written f
    → Stores e key written f
drawn_from-Stores e n {key} {written} {f} s = record {
  blocks = s.blocks;
  sealed = drawn_from-Sealed e n key 0 s.blocks f.content s.sealed;
  cut = s.cut;
  whole = s.whole;
}
