-- ===== src/Stream/TestStream/UnitTests.antt =====
-- The unit tests of src/c_stream.rs (lines 305 to 354). A failed `assert_eq!` or `unwrap` is a
-- panic.
use c2pa_c.Common.{
  ℕ, Bytes, [], ◌∷◌, Bool, true, false, ◌&&◌, ◌==◌, Result, ok, err, pos, negsuc, M, ◌>>=◌, ◌>>◌,
  pure, fault, replicate,
}
use c2pa_c.Error.Last.{Thread}
use c2pa_c.Stream.{CStream, from_start, from_current, from_end, IoError, read, write, seek}
use c2pa_c.Stream.TestStream.{Arena, from_bytes, from_c_stream, drop_c_stream}

-- `==` on slices
unfoldable pub eq_bytes : Bytes → Bytes → Bool
eq_bytes [] [] = true
eq_bytes [] (y ∷ ys) = false
eq_bytes (x ∷ xs) [] = false
eq_bytes (x ∷ xs) (y ∷ ys) = (x == y) && eq_bytes xs ys

-- `assert!`
unfoldable pub assert : {W : Type 0} → Bool → M W (Unit {0})
assert true = pure tt
assert false = fault

-- `Result::unwrap`
unfoldable pub unwrap : {W A : Type 0} → Result A IoError → M W A
unwrap (ok a) = pure a
unwrap (err e) = fault

-- A read into a new buffer of `len` zeros, of `count` bytes, that leaves `bytes` in it.
unfoldable pub assert_read : CStream Arena → (len count : ℕ) → Bytes → M (Thread Arena) (Unit {0})
unfolding read assert unwrap eq_bytes
assert_read c_stream len count bytes = do
  (result, buf) ← read c_stream (replicate len 0)
  bytes_read ← unwrap result
  assert (bytes_read == count)
  assert (eq_bytes buf bytes)

abbrev one_to_five : Bytes
one_to_five = 1 ∷ 2 ∷ 3 ∷ 4 ∷ 5 ∷ []

unfoldable pub test_cstream_read : M (Thread Arena) (Unit {0})
unfolding assert_read from_bytes from_c_stream
test_cstream_read = do
  c_stream ← from_bytes one_to_five
  assert_read c_stream 3 3 (1 ∷ 2 ∷ 3 ∷ [])
  assert_read c_stream 3 2 (4 ∷ 5 ∷ 0 ∷ [])
  test_stream ← from_c_stream c_stream
  pure tt

unfoldable pub test_cstream_seek : M (Thread Arena) (Unit {0})
unfolding assert_read from_bytes drop_c_stream unwrap seek
test_cstream_seek = do
  c_stream ← from_bytes one_to_five
  start ← seek c_stream (from_start 2)
  place ← unwrap start
  assert_read c_stream 3 3 (3 ∷ 4 ∷ 5 ∷ [])
  end ← seek c_stream (from_end (negsuc 1))
  place ← unwrap end
  assert_read c_stream 2 2 (4 ∷ 5 ∷ [])
  current ← seek c_stream (from_current (negsuc 3))
  place ← unwrap current
  assert_read c_stream 3 3 (2 ∷ 3 ∷ 4 ∷ [])
  drop_c_stream c_stream

unfoldable pub test_cstream_write : M (Thread Arena) (Unit {0})
unfolding from_bytes drop_c_stream unwrap seek write assert
test_cstream_write = do
  c_stream ← from_bytes one_to_five
  end ← seek c_stream (from_end (pos 0))
  place ← unwrap end
  written ← write c_stream (6 ∷ 7 ∷ 8 ∷ [])
  bytes_written ← unwrap written
  assert (bytes_written == 3)
  end' ← seek c_stream (from_end (pos 0))
  place' ← unwrap end'
  assert (place' == 8)
  drop_c_stream c_stream
