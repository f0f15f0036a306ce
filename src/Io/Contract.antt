-- ===== src/Io/Contract.antt =====
-- What std::io::Read and std::io::Write promise, for the loops of src/stream_util.rs: a relation
-- says which bytes a reader has ahead, or which a writer has been given.
use encryptedfs.Prelude.{ℕ, ◌≤◌, ◌<◌, ◌≡◌, List, [], ◌++◌, length, Exec, Result, ok}
use encryptedfs.Io.{IoError}

abbrev pub ReadFn : Type 0 → Type 0
ReadFn S = ℕ → Exec IoError S (List ℕ)

abbrev pub WriteAllFn : Type 0 → Type 0
WriteAllFn S = List ℕ → Exec IoError S (Unit {0})

-- The outcome of a read of at most `n` bytes with `rest` ahead: some of these, in order, and none
-- only at the end.
pub record Reads {S : Type 0} (Ahead : S → List ℕ → Type 0) (n : ℕ) (rest : List ℕ)
    (outcome : Result IoError (List ℕ) × S) : Type 0 where
  pub bytes : List ℕ
  pub after : List ℕ
  pub result : outcome.0 ≡ ok bytes
  pub split : rest ≡ bytes ++ after
  pub bound : length bytes ≤ n
  pub ended : bytes ≡ [] → rest ≡ []
  pub ahead : Ahead outcome.1 after

pub record IsReader {S : Type 0} (Ahead : S → List ℕ → Type 0) (read : ReadFn S) : Type 0 where
  pub reads : (n : ℕ) (s : S) (rest : List ℕ) → 0 < n → Ahead s rest → Reads Ahead n rest (read n s)

-- A writer takes all that fits: `Fits` says what it can have been given in all.
pub record IsWriter {S : Type 0} (Written : S → List ℕ → Type 0) (Fits : List ℕ → Type 0)
    (write_all : WriteAllFn S) : Type 0 where
  pub writes :
      (src : List ℕ) (s : S) (before : List ℕ)
      → Written s before
      → Fits (before ++ src)
      → ((write_all src s).0 ≡ ok tt) × Written (write_all src s).1 (before ++ src)
  pub prefix : (xs ys : List ℕ) → Fits (xs ++ ys) → Fits xs
