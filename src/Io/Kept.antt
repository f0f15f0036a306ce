-- ===== src/Io/Kept.antt =====
-- A file keeps the contracts of std::io: it can be what the loops of src/stream_util.rs work on.
use encryptedfs.Prelude.{
  ℕ, ◌≤◌, ◌<◌, min, ◌≡◌, refl, sym, ap, ◌∙◌, subst, List, ◌++◌, arith, length, take, drop,
  length-append, length-take, nil_of_length, take-append-drop, drop_all, drop-drop,
}
use encryptedfs.Io.File.{File, write_all_at_end}
use encryptedfs.Io.File
use encryptedfs.Io.Contract.{IsReader, IsWriter}

-- The file has `rest` behind its cursor, and its reads return something.
pub record FileAhead (f : File) (rest : List ℕ) : Type 0 where
  pub burst : 0 < f.burst
  pub split : drop f.cursor f.content ≡ rest

-- The file was empty, and holds what was written, with the cursor at the end.
pub record FileWritten (quota : ℕ) (f : File) (before : List ℕ) : Type 0 where
  pub whole : f.content ≡ before
  pub at_end : f.cursor ≡ length f.content
  pub same_quota : f.quota ≡ quota

abbrev pub FileFits : ℕ → List ℕ → Type 0
FileFits quota xs = length xs ≤ quota

pub file_reads : IsReader FileAhead File.read
unfolding File.read
file_reads = record {
  reads = λ n f rest room a.
      let m : ℕ = min n f.burst in
      let bytes : List ℕ = take m (drop f.cursor f.content) in
      let m_le : length bytes ≡ min m (length rest) =
        omega (arith, length-take m (drop f.cursor f.content), ap length a.split) in
      record {
        bytes = bytes;
        after = drop m rest;
        result = refl;
        split = sym (take-append-drop m rest) ∙ ap (λ l. take m l ++ drop m rest) (sym a.split);
        bound = omega arith;
        ended = λ z. nil_of_length rest (omega (arith, a.burst, ap length z));
        ahead = record {
          burst = a.burst;
          split =
              sym (drop-drop (length bytes) f.cursor f.content)
              ∙ ap (drop (length bytes)) a.split
              ∙ ground (arith, drop_all m rest, drop_all (length bytes) rest);
        };
      };
}

pub file_writes : (quota : ℕ) → IsWriter (FileWritten quota) (FileFits quota) File.write_all
file_writes quota = record {
  writes = λ src f before wr fits.
      let run =
        write_all_at_end f src wr.at_end
          (omega (arith, wr.at_end, wr.same_quota, ap length wr.whole, length-append before src)) in
      (
        ap (λ o. o.0) run,
        subst (λ g. FileWritten quota g (before ++ src)) (sym (ap (λ o. o.1) run))
            (record {
              whole = ap (λ l. l ++ src) wr.whole;
              at_end = omega (arith, wr.at_end, length-append f.content src);
              same_quota = wr.same_quota;
            }),
      );
  prefix = λ xs ys fits. omega (arith, length-append xs ys);
}
