-- ===== src/BufMut/Run.antt =====
-- Every state of a `BufMut` that its methods can reach.
use encryptedfs.Prelude.{
  ℕ, ◌^◌, ◌<◌, ◌≡◌, refl, ◌∙◌, List, [], ◌∷◌, arith, length, take, length-take, length-splice,
}
use encryptedfs.Io.{SeekFrom}
use encryptedfs.BufMut
use encryptedfs.BufMut.{BufMut}
use encryptedfs.BufMut.Valid.{
  IsValid, new-IsValid, clear-IsValid, seek_read-IsValid, seek_write-IsValid,
  seek_available-IsValid, read-IsValid, write-IsValid, length-write, set_as_mut-IsValid,
}

-- The calls that change a buffer; the slice of `as_mut` takes as many bytes as it holds.
pub data Op : Type 0 where
  clears : Op
  seeks_read : SeekFrom → Op
  seeks_write : SeekFrom → Op
  seeks_available : SeekFrom → Op
  sets_as_mut : List ℕ → Op
  writes : List ℕ → Op
  reads : ℕ → Op

unfoldable pub call : Op → BufMut → BufMut
call clears b = BufMut.clear b
call (seeks_read p) b = (BufMut.seek_read p b).1
call (seeks_write p) b = (BufMut.seek_write p b).1
call (seeks_available p) b = (BufMut.seek_available p b).1
call (sets_as_mut bytes) b = BufMut.set_as_mut (take b.available bytes) b
call (writes src) b = (BufMut.write src b).1
call (reads n) b = (BufMut.read n b).1

unfoldable pub run : List Op → BufMut → BufMut
run [] b = b
run (o ∷ os) b = run os (call o b)

call-IsValid : (o : Op) {b : BufMut} → IsValid b → IsValid (call o b)
unfolding call
call-IsValid clears v = clear-IsValid v
call-IsValid (seeks_read p) v = seek_read-IsValid p v
call-IsValid (seeks_write p) v = seek_write-IsValid p v
call-IsValid (seeks_available p) v = seek_available-IsValid p v
call-IsValid (sets_as_mut bytes) {b} v =
    set_as_mut-IsValid (take b.available bytes) (omega (arith, length-take b.available bytes)) v
call-IsValid (writes src) v = write-IsValid src v
call-IsValid (reads n) v = read-IsValid n v

length-call : (o : Op) {b : BufMut} → IsValid b → length (call o b).buf ≡ length b.buf
unfolding call BufMut.clear BufMut.seek_read BufMut.seek_write BufMut.seek_available BufMut.read
length-call clears v = refl
length-call (seeks_read p) v = ground arith
length-call (seeks_write p) v = ground arith
length-call (seeks_available p) v = ground arith
length-call (sets_as_mut bytes) {b} v =
    length-splice 0 (take b.available bytes) b.buf
      (omega (arith, length-take b.available bytes, v.available_le))
length-call (writes src) v = length-write src v
length-call (reads n) v = ground arith

run-IsValid_from :
    (os : List Op) {b : BufMut}
    → IsValid b
    → IsValid (run os b) × (length (run os b).buf ≡ length b.buf)
unfolding run
run-IsValid_from [] v = (v, refl)
run-IsValid_from (o ∷ os) v =
    let (v', len) = run-IsValid_from os (call-IsValid o v) in (v', len ∙ length-call o v)

-- Whatever methods are called on a new buffer, and whatever positions the seeks are given, the
-- positions stay in order and inside the buffer, so that no slice is out of range and no difference
-- of positions underflows; and the buffer keeps its length.
pub run-IsValid :
    (os : List Op) (from : List ℕ)
    → length from < 2 ^ 63
    → IsValid (run os (BufMut.new from)) × (length (run os (BufMut.new from)).buf ≡ length from)
unfolding BufMut.new
run-IsValid os from small = run-IsValid_from os (new-IsValid from small)
